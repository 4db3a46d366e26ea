-- ===== src/Capture.antt =====
-- internal/capture/processor.go: one raw snapshot through the journal and the projections.
-- The appender and the projections are interfaces: the parameters `append_raw` and
-- `apply_projection`, over the types of their states. A projection's flag is "no error".
pub mod Reports
pub mod Outcomes
use dota2_ob.Prelude.{
  ℕ, String, Bool, true, false, Option, none, some, List, [], ◌∷◌, ◌++◌, if◌then◌else◌, codes,
  str_eq,
}
use dota2_ob.Prelude.Time.{Time}
use dota2_ob.Operator.{
  Tracker, subsystem_raw, subsystem_latest, subsystem_profile, subsystem_analytics,
  raw_store_sealed, accepted, analytics_success, raw_failure, failure, success,
}
use dota2_ob.Session.{
  Bytes, Record, Err, invalid_json, append_failed, store_sealed, marshal_failed, AppendResult,
  appended, failed,
}

abbrev pub raw_append_failed : String
raw_append_failed = "raw_append_failed"

abbrev pub latest_failed : String
latest_failed = "latest_failed"

abbrev pub profile_failed : String
profile_failed = "profile_failed"

abbrev pub analytics_failed : String
analytics_failed = "analytics_failed"

unfoldable pub safe_message : String → List ℕ
safe_message code = codes (
    if str_eq code raw_append_failed
    then "raw append failed; retry is available"
    else if str_eq code raw_store_sealed
    then "raw store is sealed; restart is required"
    else if str_eq code latest_failed
    then "latest projection failed"
    else if str_eq code profile_failed
    then "profile projection failed"
    else if str_eq code analytics_failed
    then "analytics projection failed"
    else "subsystem operation failed")

-- `logged` holds the calls of logFailure, in order.
pub record Processor (A P : Type 0) : Type 0 where
  pub appender : A
  pub tracker : Option Tracker
  pub latest : Option P
  pub profile : Option P
  pub analytics : Option P
  pub logged : List (String × String)

-- The clock readings of the reports that one Process may make.
pub record Readings : Type 0 where
  pub raw_at : Time
  pub latest_at : Time
  pub profile_at : Time
  pub analytics_at : Time

abbrev pub on_tracker : (Tracker → Tracker) → Option Tracker → Option Tracker
on_tracker f none = none
on_tracker f (some t) = some (f t)

-- What `apply` says to the tracker after a projection without error.
abbrev pub report_success : String → Time → Tracker → Tracker
report_success subsystem at t =
    if str_eq subsystem subsystem_analytics then analytics_success at t else success subsystem t

abbrev pub raw_code : Err → String
raw_code store_sealed = raw_store_sealed
raw_code invalid_json = raw_append_failed
raw_code append_failed = raw_append_failed
raw_code marshal_failed = raw_append_failed

module _ {P J : Type 0} (apply_projection : P → Record J → P × Bool) where
  -- The projection, the tracker and the log after `apply`.
  abbrev pub after_apply :
      String
      → String
      → Time
      → Record J
      → P × Bool
      → Option Tracker
      → List (String × String)
      → Option P × Option Tracker × List (String × String)
  after_apply subsystem code now r (p, true) tracker logged =
      (some p, on_tracker (report_success subsystem r.received_at) tracker, logged)
  after_apply subsystem code now r (p, false) tracker logged = (
    some p,
    on_tracker (failure now subsystem code (safe_message code)) tracker,
    logged ++ (code, subsystem) ∷ [],
  )

  unfoldable pub apply :
      String
      → String
      → Time
      → Record J
      → Option P
      → Option Tracker
      → List (String × String)
      → Option P × Option Tracker × List (String × String)
  apply subsystem code now r none tracker logged = (none, tracker, logged)
  apply subsystem code now r (some p) tracker logged =
      after_apply subsystem code now r (apply_projection p r) tracker logged

module _ {A P J : Type 0} (append_raw : A → Bytes → A × AppendResult J)
    (apply_projection : P → Record J → P × Bool) where
  -- Every error but invalid JSON is a failure of the raw store.
  abbrev report_raw : Readings → Err → Processor A P → Processor A P
  report_raw at invalid_json p = p
  report_raw at e p = record p {
    tracker = on_tracker (raw_failure at.raw_at (raw_code e) (safe_message (raw_code e))) p.tracker;
    logged = elim p.tracker [
      | none ↦ p.logged
      | some _ ↦ p.logged ++ (raw_code e, subsystem_raw) ∷ []
    ];
  }

  abbrev project : Readings → Record J → Processor A P → Processor A P
  project at r p =
      let t0 = on_tracker (accepted r.received_at) p.tracker in
      let (latest, t1, l1) =
        apply apply_projection subsystem_latest latest_failed at.latest_at r p.latest t0 p.logged in
      let (profile, t2, l2) =
        apply apply_projection subsystem_profile profile_failed at.profile_at r p.profile t1 l1 in
      let (analytics, t3, l3) =
        apply apply_projection subsystem_analytics analytics_failed at.analytics_at r p.analytics t2
          l2 in
      record p {
        tracker = t3;
        latest = latest;
        profile = profile;
        analytics = analytics;
        logged = l3;
      }

  abbrev after_append :
      Readings → Processor A P → A × AppendResult J → Processor A P × AppendResult J
  after_append at p (a, failed e) = (report_raw at e (record p { appender = a }), failed e)
  after_append at p (a, appended r) = (project at r (record p { appender = a }), appended r)

  unfoldable pub process : Readings → Bytes → Processor A P → Processor A P × AppendResult J
  process at raw p = after_append at p (append_raw p.appender raw)
