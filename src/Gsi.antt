-- ===== src/Gsi.antt =====
-- internal/gsi/server.go: the HTTP endpoint that receives snapshots, and its graceful stop.
-- The server and its processor share one tracker, as NewServer and cmd/dota2-ob wire them: it is the
-- tracker of the processor here. Routing and the read-only handlers are not modelled.
pub mod Accounts
pub mod Balance
pub mod Inflight
mod Tests
use dota2_ob.Prelude.{
  ℕ, String, Bool, true, false, not, Option, none, some, List, if◌then◌else◌, str_eq,
}
use dota2_ob.Prelude.Time.{Time}
use dota2_ob.Operator.{request, rejected}
use dota2_ob.Session.{
  Bytes, Record, Err, invalid_json, append_failed, store_sealed, marshal_failed, AppendResult,
  appended, failed,
}
use dota2_ob.Capture.{Processor, Readings, on_tracker, process}

-- HTTP status codes of the handler.
pub data Status : Type 0 where
  ok bad_request method_not_allowed request_entity_too_large internal_server_error : Status
  service_unavailable : Status

pub record Server (A P : Type 0) : Type 0 where
  pub store_configured : Bool
  pub processor : Processor A P

abbrev error_status : Err → Status
error_status invalid_json = bad_request
error_status store_sealed = service_unavailable
error_status append_failed = internal_server_error
error_status marshal_failed = internal_server_error

abbrev reject : {A P : Type 0} → Server A P → Server A P
reject s = record s {
  processor = record s.processor { tracker = on_tracker rejected s.processor.tracker };
}

module _ {A P J : Type 0} (append_raw : A → Bytes → A × AppendResult J)
    (apply_projection : P → Record J → P × Bool) where
  abbrev pub after_process : Server A P → Processor A P × AppendResult J → Server A P × Status
  after_process s (p, appended r) = (record s { processor = p }, ok)
  after_process s (p, failed invalid_json) = (reject (record s { processor = p }), bad_request)
  after_process s (p, failed e) = (record s { processor = p }, error_status e)

  -- `body` is none if io.ReadAll fails, on a body over maxSnapshotBytes too.
  abbrev handle_body : Readings → Option Bytes → Server A P → Server A P × Status
  handle_body at none s = (reject s, request_entity_too_large)
  handle_body at (some body) s =
      after_process s (process append_raw apply_projection at body s.processor)

  unfoldable pub handle_gsi :
      Time → Readings → String → Option Bytes → Server A P → Server A P × Status
  handle_gsi now at method body s =
      if not (str_eq method "POST")
      then (s, method_not_allowed)
      else (let s' : Server A P = record s {
        processor = record s.processor { tracker = on_tracker (request now) s.processor.tracker };
      } in
          if s'.store_configured then handle_body at body s' else (s', internal_server_error))
