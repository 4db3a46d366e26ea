-- ===== src/Operator/Sealed.antt =====
-- The active failures: each subsystem has a status of its own, and a sealed store stays reported.
use dota2_ob.Prelude.{
  ◌≡◌, refl, ap, ◌∙◌, String, Bool, true, false, not, List, [], ◌∷◌, ◌&&◌, Option, none, some,
  arith, All, lookup, lookup-insert, lookup-delete, str_eq, eq_iff, if◌then◌else◌,
}
use dota2_ob.Prelude.Time.{Time}
use dota2_ob.Operator.{
  State, ErrorRecord, Tracker, Call, request_call, rejected_call, accepted_call,
  analytics_success_call, raw_failure_call, failure_call, success_call, subsystem_raw,
  subsystem_analytics, raw_store_sealed, clears_raw, is_sealed, make_record, call, calls, snapshot,
}

-- The status of one subsystem `k` under one call, with no other subsystem in sight.
abbrev pub status_step : String → Call → Option ErrorRecord → Option ErrorRecord
status_step k rejected_call o = o
status_step k (request_call now) o = o
status_step k (accepted_call at) o = if str_eq subsystem_raw k && clears_raw o then none else o
status_step k (analytics_success_call at) o = if str_eq subsystem_analytics k then none else o
status_step k (raw_failure_call now code message) o =
    if str_eq subsystem_raw k then some (make_record now subsystem_raw code message) else o
status_step k (failure_call now subsystem code message) o =
    if str_eq subsystem k then some (make_record now subsystem code message) else o
status_step k (success_call subsystem) o =
    if str_eq subsystem k && not (str_eq subsystem subsystem_raw && is_sealed o) then none else o

unfoldable pub status : String → List Call → Option ErrorRecord → Option ErrorRecord
status k [] o = o
status k (c ∷ cs) o = status k cs (status_step k c o)

lookup-call :
    (k : String) (c : Call) (t : Tracker)
    → lookup k (call c t).active ≡ status_step k c (lookup k t.active)
unfolding call
lookup-call k (accepted_call at) t =
    ground (arith, lookup-delete subsystem_raw k t.active, eq_iff subsystem_raw k)
lookup-call k (success_call subsystem) t =
    ground (arith, lookup-delete subsystem k t.active, eq_iff subsystem k)
lookup-call k (analytics_success_call at) t = lookup-delete subsystem_analytics k t.active
lookup-call k (raw_failure_call now code message) t =
    lookup-insert subsystem_raw k (make_record now subsystem_raw code message) t.active
lookup-call k (failure_call now subsystem code message) t =
    lookup-insert subsystem k (make_record now subsystem code message) t.active
lookup-call k rejected_call t = refl
lookup-call k (request_call now) t = refl

-- After any calls, the failure that is active for a subsystem is what that subsystem's own status
-- machine gives: a report sets it, its own success clears it, and calls about other subsystems do
-- not touch it.
pub lookup-calls :
    (k : String) (cs : List Call) (t : Tracker)
    → lookup k (calls cs t).active ≡ status k cs (lookup k t.active)
unfolding calls status
lookup-calls k [] t = refl
lookup-calls k (c ∷ cs) t = lookup-calls k cs (call c t) ∙ ap (status k cs) (lookup-call k c t)

-- A call that reports a failure of the raw store.
abbrev pub reports_raw : Call → Bool
reports_raw (raw_failure_call _ _ _) = true
reports_raw (failure_call _ subsystem _ _) = str_eq subsystem subsystem_raw
reports_raw _ = false

status_step_sealed :
    (c : Call) (f : ErrorRecord)
    → str_eq f.code raw_store_sealed ≡ true
    → reports_raw c ≡ false
    → status_step subsystem_raw c (some f) ≡ some f
status_step_sealed rejected_call f s h = refl
status_step_sealed c f s h = ground arith

status-sealed :
    (cs : List Call) (f : ErrorRecord)
    → str_eq f.code raw_store_sealed ≡ true
    → All (λ c. reports_raw c ≡ false) cs
    → status subsystem_raw cs (some f) ≡ some f
unfolding status
status-sealed [] f s h = refl
status-sealed (c ∷ cs) f s h =
    ap (status subsystem_raw cs) (status_step_sealed c f s h.0) ∙ status-sealed cs f s h.1

degraded_of_active :
    (now : Time) (t : Tracker) (k : String) (f : ErrorRecord)
    → lookup k t.active ≡ some f
    → (snapshot now t).state ≡ State.degraded
unfolding snapshot lookup
degraded_of_active now t k f h = ground arith

-- Once the raw store is reported sealed, no call but another report on the raw store clears it:
-- the same failure is active after any such calls, and the reported state is `degraded`.
pub calls_sealed :
    (cs : List Call) (t : Tracker) (f : ErrorRecord) (now : Time)
    → lookup subsystem_raw t.active ≡ some f
    → f.code ≡ raw_store_sealed
    → All (λ c. reports_raw c ≡ false) cs
    → (lookup subsystem_raw (calls cs t).active ≡ some f)
      × ((snapshot now (calls cs t)).state ≡ State.degraded)
calls_sealed cs t f now h s quiet =
    let kept : lookup subsystem_raw (calls cs t).active ≡ some f =
      lookup-calls subsystem_raw cs t
      ∙ ap (status subsystem_raw cs) h
      ∙ status-sealed cs f ((eq_iff f.code raw_store_sealed).1 s) quiet in
    (kept, degraded_of_active now (calls cs t) subsystem_raw f kept)
