-- ===== src/Closure.antt =====
-- internal/replay/metrics/closure.go: the validated closure contract of the metrics.
-- Decoding is a parameter. An error is its kind with what it names; its text is not modelled. The map
-- of seen ids is an association list.
pub mod Rows
pub mod Valid
mod Tests
use dota2_ob.Prelude.{
  ℕ, suc, ◌+◌, ◌==◌, String, Bool, true, false, not, ◌&&◌, ◌||◌, Option, none, some, List, [], ◌∷◌,
  length, lookup, insert, codes, str_eq, if◌then◌else◌,
}
use dota2_ob.Prelude.Int.{ℤ, pos, eqb_ℤ}

pub record ClosureRow : Type 0 where
  pub metric_id : String
  pub evaluator_id : String
  pub entry_point : String
  pub capability_level : String
  pub report_level : String
  pub resolved : String
  pub accepted_source_fields : String
  pub publication_gate : String
  pub unavailable_gate : String

pub record Closure : Type 0 where
  pub schema_version : String
  pub issue : String
  pub count : ℤ
  pub rules : List String
  pub metrics : List ClosureRow

pub data ClosureError : Type 0 where
  decode_failed : ClosureError
  wrong_schema : String → ClosureError
  wrong_rows : ℕ → ClosureError
  missing_names : ℕ → ClosureError
  incomplete_row missing_gate not_a_dispatch missing_reason : String → ClosureError
  unknown_resolved : String → String → ClosureError
  duplicate_id : String → ClosureError
  wrong_count : ℤ → ℕ → ClosureError

abbrev pub closure_schema_version : String
closure_schema_version = "ti2026.metric-closure.v1"

unfoldable pub has_prefix : List ℕ → List ℕ → Bool
has_prefix [] cs = true
has_prefix (p ∷ ps) [] = false
has_prefix (p ∷ ps) (c ∷ cs) = c == p && has_prefix ps cs

unfoldable pub is_compute_entry_point : String → Bool
unfolding has_prefix
is_compute_entry_point ep =
    has_prefix (codes "computeMetric:") (codes ep) || str_eq ep "phaseDurationValue"

-- The switch on the resolved state.
abbrev pub resolved_error : ClosureRow → Option ClosureError
resolved_error r =
    if str_eq r.resolved "published"
    then (if str_eq r.unavailable_gate ""
        then some (missing_gate r.metric_id)
        else if not (is_compute_entry_point r.entry_point)
        then some (not_a_dispatch r.metric_id)
        else none)
    else if str_eq r.resolved "unavailable"
    then (if str_eq r.unavailable_gate "" then some (missing_reason r.metric_id) else none)
    else some (unknown_resolved r.metric_id r.resolved)

-- What the loop says of one row before it looks for its id.
unfoldable pub row_error : ℕ → ClosureRow → Option ClosureError
row_error i r =
    if str_eq r.metric_id "" || str_eq r.evaluator_id "" || str_eq r.entry_point ""
    then some (missing_names i)
    else if str_eq r.capability_level ""
        || str_eq r.report_level ""
        || str_eq r.accepted_source_fields ""
        || str_eq r.publication_gate ""
    then some (incomplete_row r.metric_id)
    else resolved_error r

abbrev pub or_false : Option Bool → Bool
or_false none = false
or_false (some b) = b

-- seen[id]
abbrev pub is_seen : String → List (String × Bool) → Bool
is_seen id seen = or_false (lookup id seen)

abbrev pub after_row :
    Option ClosureError → Bool → String → Option ClosureError → Option ClosureError
after_row (some e) seen id rest = some e
after_row none true id rest = some (duplicate_id id)
after_row none false id rest = rest

-- The loop over the rows, from the index `i`.
unfoldable pub validate_rows : ℕ → List (String × Bool) → List ClosureRow → Option ClosureError
unfolding row_error
validate_rows i seen [] = none
validate_rows i seen (r ∷ rows) =
    let rest = validate_rows (suc i) (insert r.metric_id true seen) rows in
    after_row (row_error i r) (is_seen r.metric_id seen) r.metric_id rest

abbrev pub count_error : Closure → Option ClosureError → Option ClosureError
count_error c (some e) = some e
count_error c none =
    if not (eqb_ℤ c.count (pos (length c.metrics)))
    then some (wrong_count c.count (length c.metrics))
    else none

-- Validate: `none` is no error.
unfoldable pub validate : Closure → Option ClosureError
unfolding validate_rows
validate c =
    if not (str_eq c.schema_version closure_schema_version)
    then some (wrong_schema c.schema_version)
    else if not (length c.metrics == 52)
    then some (wrong_rows (length c.metrics))
    else count_error c (validate_rows 0 [] c.metrics)

pub data Parsed : Type 0 where
  parsed : Closure → Parsed
  rejected_closure : ClosureError → Parsed

abbrev pub parsed_if_valid : Closure → Option ClosureError → Parsed
parsed_if_valid c none = parsed c
parsed_if_valid c (some e) = rejected_closure e

abbrev pub parse_decoded : Option Closure → Parsed
parse_decoded none = rejected_closure decode_failed
parse_decoded (some c) = parsed_if_valid c (validate c)

-- ParseClosure
unfoldable pub parse_closure : (List ℕ → Option Closure) → List ℕ → Parsed
unfolding validate
parse_closure unmarshal bytes = parse_decoded (unmarshal bytes)

-- (*Closure).Lookup
unfoldable pub find_row : String → List ClosureRow → Option ClosureRow
find_row id [] = none
find_row id (r ∷ rows) =
    let later = find_row id rows in if str_eq r.metric_id id then some r else later
