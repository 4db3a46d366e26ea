-- ===== src/Operator/Tests.antt =====
-- A short run of the tracker of internal/operator/tracker.go.
use mathlib.Core.List.{Memᴰ}
use dota2_ob.Prelude.{
  ◌%◌, ◌≤◌, ◌≡◌, refl, some, List, [], ◌∷◌, All, delete, insert, length, last_items, lookup,
}
use dota2_ob.Prelude.Int.{pos, ◌<ℤ◌}
use dota2_ob.Prelude.Time.{Time, time_sub, u64_mod}
use dota2_ob.Operator.{
  State, ErrorRecord, Tracker, Call, request_call, accepted_call, raw_failure_call, failure_call,
  success_call, subsystem_raw, subsystem_latest, raw_store_sealed, max_errors, make_record,
  new_tracker, call, calls, snapshot, record_locked,
}
use dota2_ob.Operator.Errors.{history, IsBounded, errors-calls-eq-window, errors-IsBounded}
use dota2_ob.Operator.Sealed.{status, lookup-calls, calls_sealed}
use dota2_ob.Operator.Status.{
  count_if, is_request, is_rejected, is_accepted, is_raw_failure, is_projection_failure,
  receiving_fresh, counters-calls,
}

abbrev fresh : Tracker
fresh = new_tracker "match" (pos 0) (pos 0)

abbrev failing : List Call
failing =
    request_call (pos 1)
    ∷ raw_failure_call (pos 2) "raw_append_failed" (1 ∷ 2 ∷ [])
    ∷ failure_call (pos 3) subsystem_latest "latest_failed" (3 ∷ [])
    ∷ []

abbrev recovering : List Call
recovering = request_call (pos 4) ∷ accepted_call (pos 5) ∷ success_call subsystem_latest ∷ []

abbrev sealed_failure : ErrorRecord
sealed_failure = make_record (pos 2) subsystem_raw raw_store_sealed (7 ∷ [])

abbrev sealed_tracker : Tracker
sealed_tracker = record_locked (pos 2) subsystem_raw raw_store_sealed (7 ∷ []) fresh

errors-calls-eq-window_example :
    (calls failing fresh).errors ≡ last_items max_errors (history failing)
errors-calls-eq-window_example = errors-calls-eq-window failing "match" (pos 0) (pos 0)

errors-IsBounded_example :
    (length (calls failing fresh).errors ≤ max_errors) × All IsBounded (calls failing fresh).errors
errors-IsBounded_example = errors-IsBounded failing "match" (pos 0) (pos 0)

lookup-calls_example :
    lookup subsystem_latest (calls failing fresh).active
    ≡ status subsystem_latest failing (lookup subsystem_latest fresh.active)
lookup-calls_example = lookup-calls subsystem_latest failing fresh

calls_sealed_example :
    (lookup subsystem_raw (calls recovering sealed_tracker).active ≡ some sealed_failure)
    × ((snapshot (pos 9) (calls recovering sealed_tracker)).state ≡ State.degraded)
unfolding record_locked make_record new_tracker lookup insert
calls_sealed_example =
    calls_sealed recovering sealed_tracker sealed_failure (pos 9) refl refl
      (refl, (refl, (refl, tt)))

receiving_fresh_example :
    (at : Time) × Memᴰ (accepted_call at) recovering
    × (time_sub (pos 9) at <ℤ fresh.stale)
    × ((calls recovering fresh).active ≡ [])
unfolding snapshot calls call new_tracker delete lookup time_sub
receiving_fresh_example = receiving_fresh recovering "match" (pos 0) (pos 9) (pos 0) refl

counters-calls_example :
    let s = snapshot (pos 9) (calls failing fresh) in
    (s.request_count ≡ count_if is_request failing % u64_mod)
    × (s.rejected_count ≡ count_if is_rejected failing % u64_mod)
    × (s.accepted_count ≡ count_if is_accepted failing % u64_mod)
    × (s.raw_write_failure_count ≡ count_if is_raw_failure failing % u64_mod)
    × (s.post_processing_failure_count ≡ count_if is_projection_failure failing % u64_mod)
counters-calls_example = counters-calls failing "match" (pos 0) (pos 9) (pos 0)
