-- ===== src/Registry/Tests.antt =====
-- A registry of 52 metrics and a closure of 52 rows, in opposite orders.
use mathlib.Core.Logic.{◌↔◌}
use mathlib.Core.List.{Permᴰ}
use dota2_ob.Prelude.{
  ℕ, zero, suc, ◌≡◌, refl, String, false, some, none, List, [], ◌∷◌, map, All, length, insert,
  lookup,
}
use dota2_ob.Prelude.Int.{pos}
use dota2_ob.Prelude.Keys.{Distinct}
use dota2_ob.Prelude.Sort.{sort_strings, sort_by, insert_by, string_lt, lex_lt}
use dota2_ob.Closure.{ClosureRow, Closure}
use dota2_ob.Registry.{
  Metric, Registry, registry_schema_version, validate, validate_metrics, metric_error, id_of,
  sorted_ids, find_metric,
}
use dota2_ob.Registry.Complete.{IsComplete, validate-IsComplete}
use dota2_ob.Registry.Agreement.{
  row_id, validate_against_registry, compare_ids, find_rows, validate_against_registry-Perm,
}

-- As many letters as it says, and one more.
abbrev letters : ℕ → String
letters zero = "m"
letters (suc n) = String.◌∷◌ "m" (letters n)

abbrev metric : ℕ → Metric
metric n = record {
  id = letters n;
  name = "n";
  business_meaning = "b";
  description = "d";
  domain = "d";
  roles = "carry" ∷ [];
  phases = [];
  current_class = "direct";
  target_class = "direct";
  capability_level = "V1";
  epistemic_class = "direct";
  metric_version = "1";
  report_level = "player";
  unit = "u";
  direction = "higher_better";
  score_direction = "";
  aggregation_rule = "mean";
  numerator = "";
  denominator = "";
  opportunity = "";
  algorithm = "";
  time_window = "";
  space_window = "";
  exclusions = [];
  raw_inputs = [];
  confidence = "";
  known_biases = [];
  test_case = "";
  radar_axis = "";
  official_score_eligible = false;
  experimental_score_eligible = false;
  required_fact_families = "combat_event" ∷ [];
  field_quality_gates = "g" ∷ [];
  evidence_record_shape = record { required = "e" ∷ []; lineage = "" };
  abstention_rule = "a";
  failure_modes = [];
  tests = record { unit = ""; fixture = ""; gold = ""; property = ""; invariant = "" };
  score_publication_gate = record {
    official_eligible = false;
    experimental_eligible = false;
    rule = "r";
    failure_result = "";
  };
}

abbrev metrics : ℕ → List Metric
metrics zero = []
metrics (suc n) = metric n ∷ metrics n

abbrev registry_of : List Metric → Registry
registry_of ms = record {
  schema_version = "ti2026.role-phase-metrics.v1";
  issue = "i";
  epistemic_classes = [];
  conventions = record {
    current_class = "";
    target_class = "";
    missing = "";
    intervals = "";
    positions = "";
    roles = "";
    publication = "";
    capability_levels = [];
    radar_axes = [];
    scoring = "";
    metric_contract = "";
    atomic_baseline = "";
  };
  metrics = ms;
}

abbrev registry : Registry
registry = registry_of (metrics 52)

validate-IsComplete_example : (validate registry ≡ none) ↔ (
    (registry.schema_version ≡ registry_schema_version)
    × (length registry.metrics ≡ 52)
    × All IsComplete registry.metrics
    × Distinct (map id_of registry.metrics))
validate-IsComplete_example = validate-IsComplete registry

valid : validate registry ≡ none
unfolding validate validate_metrics metric_error insert lookup
valid = refl

abbrev row : ℕ → ClosureRow
row n = record {
  metric_id = letters n;
  evaluator_id = "e";
  entry_point = "computeMetric:x";
  capability_level = "c";
  report_level = "r";
  resolved = "published";
  accepted_source_fields = "f";
  publication_gate = "p";
  unavailable_gate = "u";
}

abbrev closure : Closure
closure = record {
  schema_version = "ti2026.metric-closure.v1";
  issue = "i";
  count = pos 3;
  rules = [];
  metrics = row 0 ∷ row 1 ∷ row 2 ∷ [];
}

validate_against_registry-Perm_example :
    (validate_against_registry closure (some (registry_of (metrics 3))) ≡ none)
    ↔ Permᴰ (map id_of (metrics 3)) (map row_id closure.metrics)
validate_against_registry-Perm_example =
    validate_against_registry-Perm closure (registry_of (metrics 3))

agrees : validate_against_registry closure (some (registry_of (metrics 3))) ≡ none
unfolding validate_against_registry compare_ids find_rows sorted_ids find_metric sort_strings
    sort_by insert_by string_lt lex_lt
agrees = refl
