-- ===== src/Capture/Reports.antt =====
-- What the reports of a Process do to the tracker, on one subsystem and on the others.
use dota2_ob.Prelude.{
  ℕ, ◌≡◌, refl, String, false, none, some, List, arith, if◌then◌else◌, lookup, lookup-insert,
  lookup-delete, str_eq, eq_iff,
}
use dota2_ob.Prelude.Time.{Time}
use dota2_ob.Operator.{
  Tracker, subsystem_raw, subsystem_analytics, u64_suc, clears_raw, make_record, accepted,
  analytics_success, failure, success,
}
use dota2_ob.Capture.{report_success}

-- The counters of requests, of accepted and rejected snapshots and of raw failures.
pub record SameCounts (t t' : Tracker) : Type 0 where
  pub requests : t'.request_count ≡ t.request_count
  pub accepts : t'.accepted_count ≡ t.accepted_count
  pub rejects : t'.rejected_count ≡ t.rejected_count
  pub raws : t'.raw_failures ≡ t.raw_failures

-- The methods of the tracker that `apply` calls, on one subsystem and on the others.
module _ (subsystem : String) (at : Time) (t : Tracker) where
  pub count_by_success : SameCounts t (report_success subsystem at t)
  unfolding success analytics_success
  count_by_success = ground arith

  module _ (not_raw : str_eq subsystem subsystem_raw ≡ false) where
    pub cleared : lookup subsystem (report_success subsystem at t).active ≡ none
    unfolding success analytics_success
    cleared = ground (
      arith,
      lookup-delete subsystem subsystem t.active,
      lookup-delete subsystem_analytics subsystem t.active,
      eq_iff subsystem subsystem,
      eq_iff subsystem subsystem_analytics,
      eq_iff subsystem_analytics subsystem,
    )

    pub kept_by_success :
        (k : String)
        → str_eq subsystem k ≡ false
        → lookup k (report_success subsystem at t).active ≡ lookup k t.active
    unfolding success analytics_success
    kept_by_success k ne = ground (
      arith,
      lookup-delete subsystem k t.active,
      lookup-delete subsystem_analytics k t.active,
      eq_iff subsystem k,
      eq_iff subsystem subsystem_analytics,
      eq_iff subsystem_analytics k,
    )

module _ (at : Time) (t : Tracker) where
  pub raw_of_accepted :
      lookup subsystem_raw (accepted at t).active
      ≡ (if clears_raw (lookup subsystem_raw t.active) then none else lookup subsystem_raw t.active)
  unfolding accepted
  raw_of_accepted = ground (arith, lookup-delete subsystem_raw subsystem_raw t.active)

  pub kept_by_accepted :
      (k : String)
      → str_eq subsystem_raw k ≡ false
      → lookup k (accepted at t).active ≡ lookup k t.active
  unfolding accepted
  kept_by_accepted k ne = ground (arith, lookup-delete subsystem_raw k t.active)

  pub count_by_accepted : (accepted at t).accepted_count ≡ u64_suc t.accepted_count
  unfolding accepted
  count_by_accepted = refl

  pub requests_by_accepted : (accepted at t).request_count ≡ t.request_count
  unfolding accepted
  requests_by_accepted = refl

  pub rejects_by_accepted : (accepted at t).rejected_count ≡ t.rejected_count
  unfolding accepted
  rejects_by_accepted = refl

  pub raws_by_accepted : (accepted at t).raw_failures ≡ t.raw_failures
  unfolding accepted
  raws_by_accepted = refl

module _ (now : Time) (subsystem code : String) (message : List ℕ) (t : Tracker) where
  pub count_by_failure : SameCounts t (failure now subsystem code message t)
  unfolding failure
  count_by_failure = ground arith

  pub reported :
      lookup subsystem (failure now subsystem code message t).active
      ≡ some (make_record now subsystem code message)
  unfolding failure
  reported = ground (
    arith,
    lookup-insert subsystem subsystem (make_record now subsystem code message) t.active,
    eq_iff subsystem subsystem,
  )

  pub kept_by_failure :
      (k : String)
      → str_eq subsystem k ≡ false
      → lookup k (failure now subsystem code message t).active ≡ lookup k t.active
  unfolding failure
  kept_by_failure k ne =
      rw (lookup-insert subsystem k (make_record now subsystem code message) t.active) (rw ne)
