-- ===== src/Closure/Tests.antt =====
-- A closure of 52 rows through Validate and Lookup of internal/replay/metrics/closure.go.
use mathlib.Core.Logic.{◌↔◌}
use mathlib.Core.List.{Memᴰ}
use dota2_ob.Prelude.{ℕ, zero, suc, ◌≡◌, refl, String, none, some, List, [], ◌∷◌, lookup, insert}
use dota2_ob.Prelude.Int.{pos}
use dota2_ob.Closure.{
  ClosureRow, Closure, has_prefix, is_compute_entry_point, row_error, validate_rows, validate,
  find_row,
}
use dota2_ob.Closure.Valid.{IsClosed, validate_iff, find_row-validate}

-- As many letters as it says, and one more.
abbrev letters : ℕ → String
letters zero = "m"
letters (suc n) = String.◌∷◌ "m" (letters n)

abbrev row : ℕ → ClosureRow
row n = record {
  metric_id = letters n;
  evaluator_id = "e";
  entry_point = "computeMetric:x";
  capability_level = "c";
  report_level = "r";
  resolved = "published";
  accepted_source_fields = "f";
  publication_gate = "p";
  unavailable_gate = "u";
}

abbrev some_rows : ℕ → List ClosureRow
some_rows zero = []
some_rows (suc n) = row n ∷ some_rows n

abbrev closure : Closure
closure = record {
  schema_version = "ti2026.metric-closure.v1";
  issue = "i";
  count = pos 52;
  rules = [];
  metrics = some_rows 52;
}

validate_iff_example : (validate closure ≡ none) ↔ IsClosed closure
validate_iff_example = validate_iff closure

closure-valid : validate closure ≡ none
unfolding validate validate_rows row_error is_compute_entry_point has_prefix insert lookup
closure-valid = refl

find_row-validate_example : find_row (letters 50) closure.metrics ≡ some (row 50)
find_row-validate_example =
    find_row-validate closure (row 50) closure-valid (Memᴰ.tail (Memᴰ.head refl))
