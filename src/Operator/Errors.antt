-- ===== src/Operator/Errors.antt =====
-- The error log: a window of the last records of all that was ever recorded.
use dota2_ob.Prelude.{
  ℕ, ◌-◌, ◌≤◌, ◌≡◌, refl, sym, ap, ◌∙◌, inl, inr, Bool-cases, String, List, [], ◌∷◌, ◌++◌, ◌&&◌,
  append-nil, append_assoc, arith, ltb, length, drop, last_items, last_items-append,
  length-last_items, length-take, All, All-append, All-drop, lookup, str_eq,
}
use dota2_ob.Prelude.Time.{Time, Duration}
use dota2_ob.Operator.{
  ErrorRecord, Tracker, Call, request_call, rejected_call, raw_failure_call, failure_call,
  success_call, subsystem_raw, max_errors, max_message_bytes, is_sealed, cap_errors, cap_message,
  make_record, new_tracker, call, calls,
}

-- What a call records, if it records anything.
abbrev pub recorded : Call → List ErrorRecord
recorded rejected_call = []
recorded (raw_failure_call now code message) = make_record now subsystem_raw code message ∷ []
recorded (failure_call now subsystem code message) = make_record now subsystem code message ∷ []
recorded _ = []

-- The whole log, which the program does not keep.
unfoldable pub history : List Call → List ErrorRecord
history [] = []
history (c ∷ cs) = recorded c ++ history cs

drop_none :
    (errors : List ErrorRecord) → length errors ≤ max_errors → last_items max_errors errors ≡ errors
drop_none errors h =
    let none_over : length errors - max_errors ≡ 0 = omega arith in
    ap (λ n. drop n errors) none_over

cap_errors-eq-last_items :
    (errors : List ErrorRecord) → cap_errors errors ≡ last_items max_errors errors
cap_errors-eq-last_items errors = elim (Bool-cases (ltb max_errors (length errors))) [
  | inl long ↦ rw long
  | inr short ↦ rw short (sym (drop_none errors (ground arith)))
]

grow :
    (errors log : List ErrorRecord) (r : ErrorRecord)
    → errors ≡ last_items max_errors log
    → cap_errors (errors ++ r ∷ []) ≡ last_items max_errors (log ++ r ∷ [])
grow errors log r h =
    cap_errors-eq-last_items (errors ++ r ∷ [])
    ∙ ap (λ es. last_items max_errors (es ++ r ∷ [])) h
    ∙ last_items-append max_errors log (r ∷ [])

errors-call :
    (c : Call) (t : Tracker) (log : List ErrorRecord)
    → t.errors ≡ last_items max_errors log
    → (call c t).errors ≡ last_items max_errors (log ++ recorded c)
unfolding call
errors-call (raw_failure_call now code message) t log h =
    grow t.errors log (make_record now subsystem_raw code message) h
errors-call (failure_call now subsystem code message) t log h =
    grow t.errors log (make_record now subsystem code message) h
errors-call (success_call subsystem) t log h =
    elim (Bool-cases (str_eq subsystem subsystem_raw && is_sealed (lookup subsystem t.active))) [
      | inl kept ↦ rw (kept, append-nil) h
      | inr cleared ↦ rw (cleared, append-nil) h
    ]
errors-call (request_call now) t log h = rw append-nil h
errors-call _ t log h = rw append-nil h

errors-calls :
    (cs : List Call) (t : Tracker) (log : List ErrorRecord)
    → t.errors ≡ last_items max_errors log
    → (calls cs t).errors ≡ last_items max_errors (log ++ history cs)
unfolding calls history
errors-calls [] t log h = rw append-nil h
errors-calls (c ∷ cs) t log h =
    rw (← append_assoc) (errors-calls cs (call c t) (log ++ recorded c) (errors-call c t log h))

-- From a new tracker, whatever the calls, the error list is the last sixteen of all the records
-- that the calls made, oldest first.
pub errors-calls-eq-window :
    (cs : List Call) (id : String) (start : Time) (threshold : Duration)
    → (calls cs (new_tracker id start threshold)).errors ≡ last_items max_errors (history cs)
unfolding new_tracker
errors-calls-eq-window cs id start threshold =
    errors-calls cs (new_tracker id start threshold) [] refl

abbrev pub IsBounded : ErrorRecord → Type 0
IsBounded r = length r.message ≤ max_message_bytes

length-cap_message : (message : List ℕ) → length (cap_message message) ≤ max_message_bytes
length-cap_message message = elim (Bool-cases (ltb max_message_bytes (length message))) [
  | inl long ↦ rw long (omega (arith, length-take max_message_bytes message))
  | inr short ↦ rw short (ground arith)
]

recorded-IsBounded : (c : Call) → All IsBounded (recorded c)
unfolding make_record
recorded-IsBounded (raw_failure_call now code message) = (length-cap_message message, tt)
recorded-IsBounded (failure_call now subsystem code message) = (length-cap_message message, tt)
recorded-IsBounded _ = tt

history-IsBounded : (cs : List Call) → All IsBounded (history cs)
unfolding history
history-IsBounded [] = tt
history-IsBounded (c ∷ cs) =
    All-append IsBounded (recorded c) (history cs) (recorded-IsBounded c) (history-IsBounded cs)

-- From a new tracker, whatever the calls, at most sixteen errors are kept and none of their
-- messages is longer than 160 bytes.
pub errors-IsBounded :
    (cs : List Call) (id : String) (start : Time) (threshold : Duration)
    → let t = calls cs (new_tracker id start threshold) in
      (length t.errors ≤ max_errors) × All IsBounded t.errors
errors-IsBounded cs id start threshold = rw (errors-calls-eq-window cs id start threshold) (
  length-last_items max_errors (history cs),
  All-drop IsBounded (length (history cs) - max_errors) (history cs) (history-IsBounded cs),
)
