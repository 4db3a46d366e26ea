-- ===== src/Operator/Status.antt =====
-- The reported state and the counters.
use mathlib.Core.List.{Memᴰ}
use mathlib.Core.Path.{subst}
use dota2_ob.Prelude.{
  ℕ, ◌+◌, ◌<◌, ◌%◌, ◌≡◌, refl, ◌∙◌, ◌⊎◌, inl, inr, String, Bool, true, false, List, [], ◌∷◌, Option,
  none, some, arith, if◌then◌else◌, ◌≢◌, not, str_eq,
}
use dota2_ob.Prelude.Int.{◌<ℤ◌}
use dota2_ob.Prelude.Time.{Time, Duration, time_sub, u64_mod}
use dota2_ob.Operator.{
  State, Tracker, idle_state, Call, request_call, rejected_call, accepted_call, raw_failure_call,
  failure_call, subsystem_raw, new_tracker, call, calls, snapshot,
}

call_last :
    (c : Call) (t : Tracker) (at : Time)
    → (call c t).last_accepted ≡ some at
    → (t.last_accepted ≡ some at) ⊎ (accepted_call at ≡ c)
unfolding call
call_last c t at h = ground arith

calls_last :
    (cs : List Call) (t : Tracker) (at : Time)
    → (calls cs t).last_accepted ≡ some at
    → (t.last_accepted ≡ some at) ⊎ Memᴰ (accepted_call at) cs
unfolding calls
calls_last [] t at h = inl h
calls_last (c ∷ cs) t at h = elim (calls_last cs (call c t) at h) [
  | inr m ↦ inr (Memᴰ.tail m)
  | inl l ↦ elim (call_last c t at l) [ inl old ↦ inl old | inr e ↦ inr (Memᴰ.head e) ]
]

stale-call : (c : Call) (t : Tracker) → (call c t).stale ≡ t.stale
unfolding call
stale-call c t = ground arith

stale-calls : (cs : List Call) (t : Tracker) → (calls cs t).stale ≡ t.stale
unfolding calls
stale-calls [] t = refl
stale-calls (c ∷ cs) t = stale-calls cs (call c t) ∙ stale-call c t

idle_receiving :
    (now : Time) (threshold : Duration) (n : ℕ) (o : Option Time)
    → idle_state now threshold n o ≡ State.receiving
    → (at : Time) × (o ≡ some at) × (time_sub now at <ℤ threshold)
idle_receiving now threshold n none h = cc
idle_receiving now threshold n (some at) h = (at, refl, ground arith)

receiving_idle :
    (now : Time) (t : Tracker)
    → (snapshot now t).state ≡ State.receiving
    → (t.active ≡ []) × (idle_state now t.stale t.accepted_count t.last_accepted ≡ State.receiving)
unfolding snapshot
receiving_idle now t h = ground arith

new_never_accepted :
    (id : String) (start : Time) (threshold : Duration) (at : Time)
    → (new_tracker id start threshold).last_accepted ≢ some at
unfolding new_tracker
new_never_accepted id start threshold at h = cc

-- A snapshot after any calls to a new tracker says `receiving` only if one of the calls accepted a
-- record less than the threshold ago, and no failure is active.
pub receiving_fresh :
    (cs : List Call) (id : String) (start now : Time) (threshold : Duration)
    → (snapshot now (calls cs (new_tracker id start threshold))).state ≡ State.receiving
    → (at : Time) × Memᴰ (accepted_call at) cs
      × (time_sub now at <ℤ (new_tracker id start threshold).stale)
      × ((calls cs (new_tracker id start threshold)).active ≡ [])
receiving_fresh cs id start now threshold h =
    let s : Tracker = new_tracker id start threshold in
    let (none_active, idle) = receiving_idle now (calls cs s) h in
    let (at, last, fresh) =
      idle_receiving now (calls cs s).stale (calls cs s).accepted_count (calls cs s).last_accepted
        idle in
    (
      at,
      elim (calls_last cs s at last) [
        | inl l ↦ absurd (new_never_accepted id start threshold at l)
        | inr m ↦ m
      ],
      subst (λ d. time_sub now at <ℤ d) (stale-calls cs s) fresh,
      none_active,
    )

-- How many calls of a history fit a test.
abbrev pub count_if : (Call → Bool) → List Call → ℕ
count_if p [] = 0
count_if p (c ∷ cs) = (if p c then 1 else 0) + count_if p cs

abbrev pub is_request : Call → Bool
is_request (request_call _) = true
is_request _ = false

abbrev pub is_rejected : Call → Bool
is_rejected rejected_call = true
is_rejected _ = false

abbrev pub is_accepted : Call → Bool
is_accepted (accepted_call _) = true
is_accepted _ = false

abbrev pub is_raw_failure : Call → Bool
is_raw_failure (raw_failure_call _ _ _) = true
is_raw_failure _ = false

abbrev pub is_projection_failure : Call → Bool
is_projection_failure (failure_call _ subsystem _ _) = not (str_eq subsystem subsystem_raw)
is_projection_failure _ = false

-- The five counters of `t` are those of `s` plus the numbers of calls, each as a uint64.
record Counted (s t : Tracker) (cs : List Call) : Type 0 where
  requests : t.request_count ≡ (s.request_count + count_if is_request cs) % u64_mod
  rejects : t.rejected_count ≡ (s.rejected_count + count_if is_rejected cs) % u64_mod
  accepts : t.accepted_count ≡ (s.accepted_count + count_if is_accepted cs) % u64_mod
  raws : t.raw_failures ≡ (s.raw_failures + count_if is_raw_failure cs) % u64_mod
  projections :
      t.projection_failures ≡ (s.projection_failures + count_if is_projection_failure cs) % u64_mod

-- Counters that fit in a uint64.
record Fits (t : Tracker) : Type 0 where
  requests : t.request_count < u64_mod
  rejects : t.rejected_count < u64_mod
  accepts : t.accepted_count < u64_mod
  raws : t.raw_failures < u64_mod
  projections : t.projection_failures < u64_mod

call-Counted :
    (c : Call) (s t : Tracker) (cs : List Call) → Counted (call c s) t cs → Counted s t (c ∷ cs)
unfolding call
call-Counted rejected_call s t cs h = ground arith
call-Counted c s t cs h = ground arith

call-Fits : (c : Call) (t : Tracker) → Fits t → Fits (call c t)
unfolding call
call-Fits rejected_call t f = ground arith
call-Fits c t f = ground arith

calls-Counted : (cs : List Call) (t : Tracker) → Fits t → Counted t (calls cs t) cs
unfolding calls
calls-Counted [] t f = ground arith
calls-Counted (c ∷ cs) t f =
    call-Counted c t (calls cs (call c t)) cs (calls-Counted cs (call c t) (call-Fits c t f))

-- A snapshot after any calls to a new tracker gives, for each of the five counters, the number of
-- the calls of its kind as a uint64.
pub counters-calls :
    (cs : List Call) (id : String) (start now : Time) (threshold : Duration)
    → let s = snapshot now (calls cs (new_tracker id start threshold)) in
      (s.request_count ≡ count_if is_request cs % u64_mod)
      × (s.rejected_count ≡ count_if is_rejected cs % u64_mod)
      × (s.accepted_count ≡ count_if is_accepted cs % u64_mod)
      × (s.raw_write_failure_count ≡ count_if is_raw_failure cs % u64_mod)
      × (s.post_processing_failure_count ≡ count_if is_projection_failure cs % u64_mod)
unfolding snapshot new_tracker
counters-calls cs id start now threshold =
    let s : Tracker = new_tracker id start threshold in
    let counted : Counted s (calls cs s) cs = calls-Counted cs s (ground arith) in ground arith
