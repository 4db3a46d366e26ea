-- ===== src/Gsi/Accounts.antt =====
-- Every POST is counted once as a request and once by what became of it.
use mathlib.Core.Path.{subst}
use dota2_ob.Prelude.{
  ℕ, ◌≡◌, ◌≢◌, refl, sym, Bool, true, false, Option, none, some, arith, if◌then◌else◌,
}
use dota2_ob.Prelude.Time.{Time}
use dota2_ob.Operator.{Tracker, u64_suc, request, rejected, raw_failure}
use dota2_ob.Session.{Bytes, Record, Err, invalid_json, AppendResult, appended, failed}
use dota2_ob.Capture.{Readings, raw_code, safe_message, process}
use dota2_ob.Capture.Outcomes.{process-Processed}
use dota2_ob.Gsi.{
  Status, ok, bad_request, method_not_allowed, request_entity_too_large, internal_server_error,
  service_unavailable, Server, after_process, handle_gsi,
}

-- Which counter an answer moves.
abbrev pub accepts : Status → Bool
accepts ok = true
accepts _ = false

abbrev pub rejects : Status → Bool
rejects bad_request = true
rejects request_entity_too_large = true
rejects _ = false

abbrev pub fails : Status → Bool
fails internal_server_error = true
fails service_unavailable = true
fails _ = false

abbrev pub bump : Bool → ℕ → ℕ
bump moved n = if moved then u64_suc n else n

-- The counters of `t'` are those of `t` moved by one request and by its answer.
pub record Accounted (t t' : Tracker) (answer : Status) : Type 0 where
  pub requested : t'.request_count ≡ u64_suc t.request_count
  pub accepted : t'.accepted_count ≡ bump (accepts answer) t.accepted_count
  pub rejected : t'.rejected_count ≡ bump (rejects answer) t.rejected_count
  pub failed : t'.raw_failures ≡ bump (fails answer) t.raw_failures
  pub answered : answer ≢ method_not_allowed

module _ {A P J : Type 0} (append_raw : A → Bytes → A × AppendResult J)
    (apply_projection : P → Record J → P × Bool) (now : Time) (at : Readings) where
  -- What became of a server with the tracker `t`.
  abbrev pub Served : Tracker → Server A P × Status → Type 0
  Served t o =
      (t' : Tracker) × (o.0.processor.tracker ≡ some t')
      × Accounted t t' o.1
      × (o.0.store_configured ≡ true)

  module _ (s : Server A P) (t : Tracker) (watched : s.processor.tracker ≡ some t)
      (configured : s.store_configured ≡ true) where
    unread : Served t (handle_gsi append_raw apply_projection now at "POST" none s)
    unfolding handle_gsi request rejected
    unread = (rejected (request now t), ground arith, ground arith, ground arith)

    requested_server : Server A P
    requested_server = record s {
      processor = record s.processor { tracker = some (request now t) };
    }

    handle_read :
        (body : Bytes)
        → handle_gsi append_raw apply_projection now at "POST" (some body) s
          ≡ after_process append_raw apply_projection requested_server
              (process append_raw apply_projection at body requested_server.processor)
    unfolding handle_gsi requested_server
    handle_read body = ground arith

  handle_failed :
      (s : Server A P) (t : Tracker) (body : Bytes) (e : Err)
      → s.processor.tracker ≡ some (request now t)
      → s.store_configured ≡ true
      → (append_raw s.processor.appender body).1 ≡ failed e
      → Served t (
          after_process append_raw apply_projection s
            (process append_raw apply_projection at body s.processor))
  unfolding process raw_failure request rejected
  handle_failed s t body invalid_json watched configured taken =
      (rejected (request now t), ground arith, ground arith, ground arith)
  handle_failed s t body e watched configured taken = (
    raw_failure at.raw_at (raw_code e) (safe_message (raw_code e)) (request now t),
    ground arith,
    ground arith,
    ground arith,
  )

  handle_appended :
      (s : Server A P) (t : Tracker) (body : Bytes) (r : Record J)
      → s.processor.tracker ≡ some (request now t)
      → s.store_configured ≡ true
      → (append_raw s.processor.appender body).1 ≡ appended r
      → Served t (
          after_process append_raw apply_projection s
            (process append_raw apply_projection at body s.processor))
  unfolding request
  handle_appended s t body r watched configured taken =
      let (result, (t', tracked, done)) =
        process-Processed append_raw apply_projection at body s.processor (request now t) r watched
          taken in
      (t', ground arith, ground arith, ground arith)

  handle_result :
      (s : Server A P) (t : Tracker) (body : Bytes) (result : AppendResult J)
      → s.processor.tracker ≡ some (request now t)
      → s.store_configured ≡ true
      → (append_raw s.processor.appender body).1 ≡ result
      → Served t (
          after_process append_raw apply_projection s
            (process append_raw apply_projection at body s.processor))
  handle_result s t body (appended r) = handle_appended s t body r
  handle_result s t body (failed e) = handle_failed s t body e

  -- A POST to a server with a store and a tracker counts one request, and one of: an accepted
  -- snapshot, a rejected one, a failure of the raw store. The answer says which: 200, 400 or 413,
  -- 500 or 503.
  pub handle_gsi-Accounted :
      (body : Option Bytes) (s : Server A P) (t : Tracker)
      → s.processor.tracker ≡ some t
      → s.store_configured ≡ true
      → Served t (handle_gsi append_raw apply_projection now at "POST" body s)
  unfolding requested_server
  handle_gsi-Accounted none s t watched configured = unread s t watched configured
  handle_gsi-Accounted (some body) s t watched configured =
      subst (Served t) (sym (handle_read s t watched configured body)) (
        handle_result (requested_server s t watched configured) t body
          (append_raw s.processor.appender body).1 refl configured refl)
