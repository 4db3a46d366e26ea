-- ===== src/Operator.antt =====
-- internal/operator/tracker.go: the health tracker of the capture process.
-- A method that takes the lock is one step from a tracker to the next; a reading of `t.clock()` is
-- the argument `now`. A message is its bytes. Counters are uint64.
pub mod Errors
pub mod Status
pub mod Sealed
mod Tests
use dota2_ob.Prelude.{
  ℕ, ◌+◌, ◌-◌, ◌%◌, String, Bool, true, false, not, ◌&&◌, Option, none, some, List, [], ◌∷◌, ◌++◌,
  ltb, leb, if◌then◌else◌, length, take, drop, is_empty, lookup, insert, delete, str_eq,
}
use dota2_ob.Prelude.Int.{ℤ, pos, ltb_ℤ, leb_ℤ}
use dota2_ob.Prelude.Time.{Time, Duration, time_sub, whole_seconds, u64_mod}

abbrev pub subsystem_raw : String
subsystem_raw = "raw"

abbrev pub subsystem_latest : String
subsystem_latest = "latest"

abbrev pub subsystem_profile : String
subsystem_profile = "profile"

abbrev pub subsystem_analytics : String
subsystem_analytics = "analytics"

abbrev pub raw_store_sealed : String
raw_store_sealed = "raw_store_sealed"

abbrev pub max_errors : ℕ
max_errors = 16

abbrev pub max_message_bytes : ℕ
max_message_bytes = 160

pub data State : Type 0 where
  waiting receiving stale degraded : State

pub record ErrorRecord : Type 0 where
  pub code : String
  pub subsystem : String
  pub message : List ℕ
  pub time : Time

pub record Tracker : Type 0 where
  pub start : Time
  pub session_id : String
  pub stale : Duration
  pub last_request : Option Time
  pub first_accepted : Option Time
  pub last_accepted : Option Time
  pub last_analytics : Option Time
  pub request_count : ℕ
  pub accepted_count : ℕ
  pub rejected_count : ℕ
  pub raw_failures : ℕ
  pub projection_failures : ℕ
  pub active : List (String × ErrorRecord)
  pub errors : List ErrorRecord

abbrev pub u64_suc : ℕ → ℕ
u64_suc n = (n + 1) % u64_mod

-- A nil clock is replaced by time.Now: the readings are arguments here.
unfoldable pub new_tracker : String → Time → Duration → Tracker
new_tracker session_id start threshold = record {
  start = start;
  session_id = session_id;
  stale = if leb_ℤ threshold (pos 0) then pos 15000000000 else threshold;
  last_request = none;
  first_accepted = none;
  last_accepted = none;
  last_analytics = none;
  request_count = 0;
  accepted_count = 0;
  rejected_count = 0;
  raw_failures = 0;
  projection_failures = 0;
  active = [];
  errors = [];
}

unfoldable pub request : Time → Tracker → Tracker
request now t = record t { last_request = some now; request_count = u64_suc t.request_count }

unfoldable pub rejected : Tracker → Tracker
rejected t = record t { rejected_count = u64_suc t.rejected_count }

abbrev pub is_sealed : Option ErrorRecord → Bool
is_sealed none = false
is_sealed (some failure) = str_eq failure.code raw_store_sealed

abbrev pub or_first : Option Time → Time → Option Time
or_first none at = some at
or_first (some first) at = some first

-- the test of Accepted: a raw failure that is there and is not the sealed one
abbrev pub clears_raw : Option ErrorRecord → Bool
clears_raw none = false
clears_raw (some failure) = not (str_eq failure.code raw_store_sealed)

unfoldable pub accepted : Time → Tracker → Tracker
accepted at t = record t {
  accepted_count = u64_suc t.accepted_count;
  last_accepted = some at;
  first_accepted = or_first t.first_accepted at;
  active =
      if clears_raw (lookup subsystem_raw t.active)
      then delete subsystem_raw t.active
      else t.active;
}

unfoldable pub analytics_success : Time → Tracker → Tracker
analytics_success at t = record t {
  last_analytics = some at;
  active = delete subsystem_analytics t.active;
}

abbrev pub cap_message : List ℕ → List ℕ
cap_message message =
    if ltb max_message_bytes (length message) then take max_message_bytes message else message

abbrev pub cap_errors : List ErrorRecord → List ErrorRecord
cap_errors errors =
    if ltb max_errors (length errors) then drop (length errors - max_errors) errors else errors

unfoldable pub make_record : Time → String → String → List ℕ → ErrorRecord
make_record now subsystem code message = record {
  code = code;
  subsystem = subsystem;
  message = cap_message message;
  time = now;
}

unfoldable pub record_locked : Time → String → String → List ℕ → Tracker → Tracker
record_locked now subsystem code message t = record t {
  active = insert subsystem (make_record now subsystem code message) t.active;
  errors = cap_errors (t.errors ++ make_record now subsystem code message ∷ []);
}

unfoldable pub raw_failure : Time → String → List ℕ → Tracker → Tracker
unfolding record_locked
raw_failure now code message t =
    record_locked now subsystem_raw code message
      (record t { raw_failures = u64_suc t.raw_failures })

unfoldable pub failure : Time → String → String → List ℕ → Tracker → Tracker
unfolding record_locked
failure now subsystem code message t = record_locked now subsystem code message (record t {
  projection_failures =
      if not (str_eq subsystem subsystem_raw)
      then u64_suc t.projection_failures
      else t.projection_failures;
})

unfoldable pub success : String → Tracker → Tracker
success subsystem t =
    if str_eq subsystem subsystem_raw && is_sealed (lookup subsystem t.active)
    then t
    else record t { active = delete subsystem t.active }

pub record Snapshot : Type 0 where
  pub state : State
  pub process_start_time : Time
  pub session_id : String
  pub stale_threshold_seconds : ℤ
  pub last_request_time : Option Time
  pub first_accepted_time : Option Time
  pub last_accepted_time : Option Time
  pub last_analytics_success_time : Option Time
  pub request_count : ℕ
  pub accepted_count : ℕ
  pub rejected_count : ℕ
  pub raw_write_failure_count : ℕ
  pub post_processing_failure_count : ℕ
  pub active_failures : List (String × ErrorRecord)
  pub errors : List ErrorRecord

abbrev idle_state : Time → Duration → ℕ → Option Time → State
idle_state now threshold count none = State.waiting
idle_state now threshold count (some at) =
    if ltb 0 count
    then (if leb_ℤ threshold (time_sub now at) then State.stale else State.receiving)
    else State.waiting

unfoldable pub state_of : Time → Tracker → State
state_of now t =
    if not (is_empty t.active)
    then State.degraded
    else idle_state now t.stale t.accepted_count t.last_accepted

unfoldable pub snapshot : Time → Tracker → Snapshot
unfolding state_of whole_seconds
snapshot now t = record {
  state = state_of now t;
  process_start_time = t.start;
  session_id = t.session_id;
  stale_threshold_seconds = whole_seconds t.stale;
  last_request_time = t.last_request;
  first_accepted_time = t.first_accepted;
  last_accepted_time = t.last_accepted;
  last_analytics_success_time = t.last_analytics;
  request_count = t.request_count;
  accepted_count = t.accepted_count;
  rejected_count = t.rejected_count;
  raw_write_failure_count = t.raw_failures;
  post_processing_failure_count = t.projection_failures;
  active_failures = t.active;
  errors = t.errors;
}

-- One call of a method that changes the tracker, with what it is given.
pub data Call : Type 0 where
  request_call : Time → Call
  rejected_call : Call
  accepted_call : Time → Call
  analytics_success_call : Time → Call
  raw_failure_call : Time → String → List ℕ → Call
  failure_call : Time → String → String → List ℕ → Call
  success_call : String → Call

unfoldable pub call : Call → Tracker → Tracker
unfolding request rejected accepted analytics_success raw_failure failure success
call (request_call now) t = request now t
call rejected_call t = rejected t
call (accepted_call at) t = accepted at t
call (analytics_success_call at) t = analytics_success at t
call (raw_failure_call now code message) t = raw_failure now code message t
call (failure_call now subsystem code message) t = failure now subsystem code message t
call (success_call subsystem) t = success subsystem t

-- A history: the calls in the order in which they took the lock.
unfoldable pub calls : List Call → Tracker → Tracker
calls [] t = t
calls (c ∷ cs) t = calls cs (call c t)
