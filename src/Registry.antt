-- ===== src/Registry.antt =====
-- internal/replay/metrics/registry.go: the registry of the metrics, and in Registry.Agreement the
-- check of the closure against it. Decoding is a parameter. An error is its kind with what it names.
pub mod Complete
pub mod Agreement
mod Tests
use dota2_ob.Prelude.{
  ℕ, suc, String, Bool, true, false, not, ◌&&◌, ◌||◌, Option, none, some, List, [], ◌∷◌, map, ◌==◌,
  if◌then◌else◌, length, is_empty, lookup, insert, str_eq,
}
use dota2_ob.Prelude.Keys.{was_seen}
use dota2_ob.Prelude.Sort.{sort_strings}

abbrev pub capability_v1 : String
capability_v1 = "V1"

abbrev pub capability_v2 : String
capability_v2 = "V2"

abbrev pub capability_v3 : String
capability_v3 = "V3"

abbrev pub class_direct : String
class_direct = "direct"

abbrev pub class_derived : String
class_derived = "derived"

abbrev pub class_modelled : String
class_modelled = "modelled"

abbrev pub class_counterfactual : String
class_counterfactual = "counterfactual"

abbrev pub class_unavailable : String
class_unavailable = "unavailable"

abbrev pub registry_schema_version : String
registry_schema_version = "ti2026.role-phase-metrics.v1"

pub record EvidenceRecordShape : Type 0 where
  pub required : List String
  pub lineage : String

pub record MetricTests : Type 0 where
  pub unit : String
  pub fixture : String
  pub gold : String
  pub property : String
  pub invariant : String

pub record ScorePublicationGate : Type 0 where
  pub official_eligible : Bool
  pub experimental_eligible : Bool
  pub rule : String
  pub failure_result : String

pub record Metric : Type 0 where
  pub id : String
  pub name : String
  pub business_meaning : String
  pub description : String
  pub domain : String
  pub roles : List String
  pub phases : List String
  pub current_class : String
  pub target_class : String
  pub capability_level : String
  pub epistemic_class : String
  pub metric_version : String
  pub report_level : String
  pub unit : String
  pub direction : String
  pub score_direction : String
  pub aggregation_rule : String
  pub numerator : String
  pub denominator : String
  pub opportunity : String
  pub algorithm : String
  pub time_window : String
  pub space_window : String
  pub exclusions : List String
  pub raw_inputs : List String
  pub confidence : String
  pub known_biases : List String
  pub test_case : String
  pub radar_axis : String
  pub official_score_eligible : Bool
  pub experimental_score_eligible : Bool
  pub required_fact_families : List String
  pub field_quality_gates : List String
  pub evidence_record_shape : EvidenceRecordShape
  pub abstention_rule : String
  pub failure_modes : List String
  pub tests : MetricTests
  pub score_publication_gate : ScorePublicationGate

pub record Conventions : Type 0 where
  pub current_class : String
  pub target_class : String
  pub missing : String
  pub intervals : String
  pub positions : String
  pub roles : String
  pub publication : String
  pub capability_levels : List (String × String)
  pub radar_axes : List String
  pub scoring : String
  pub metric_contract : String
  pub atomic_baseline : String

pub record Registry : Type 0 where
  pub schema_version : String
  pub issue : String
  pub epistemic_classes : List String
  pub conventions : Conventions
  pub metrics : List Metric

pub data RegistryError : Type 0 where
  decode_failed : RegistryError
  wrong_schema : String → RegistryError
  wrong_count incomplete_identity : ℕ → RegistryError
  incomplete_contract no_families no_gates no_evidence no_abstention no_publication_gate
        duplicate_id :
      String → RegistryError

-- What the loop of Validate says of one metric; `seen` is whether its id came before.
unfoldable pub metric_error : ℕ → Bool → Metric → Option RegistryError
metric_error i seen m =
    if str_eq m.id "" || str_eq m.name "" || str_eq m.unit "" || str_eq m.aggregation_rule ""
    then some (incomplete_identity i)
    else if str_eq m.capability_level ""
        || str_eq m.epistemic_class ""
        || str_eq m.metric_version ""
        || str_eq m.report_level ""
    then some (incomplete_contract m.id)
    else if is_empty m.required_fact_families
    then some (no_families m.id)
    else if is_empty m.field_quality_gates
    then some (no_gates m.id)
    else if is_empty m.evidence_record_shape.required
    then some (no_evidence m.id)
    else if str_eq m.abstention_rule ""
    then some (no_abstention m.id)
    else if str_eq m.score_publication_gate.rule ""
    then some (no_publication_gate m.id)
    else if seen
    then some (duplicate_id m.id)
    else none

abbrev pub first_error : Option RegistryError → Option RegistryError → Option RegistryError
first_error none rest = rest
first_error (some e) rest = some e

unfoldable pub validate_metrics : ℕ → List (String × Bool) → List Metric → Option RegistryError
unfolding metric_error
validate_metrics i seen [] = none
validate_metrics i seen (m ∷ ms) =
    let rest = validate_metrics (suc i) (insert m.id true seen) ms in
    first_error (metric_error i (was_seen (lookup m.id seen)) m) rest

-- Validate: `none` is no error.
unfoldable pub validate : Registry → Option RegistryError
unfolding validate_metrics
validate r =
    if not (str_eq r.schema_version registry_schema_version)
    then some (wrong_schema r.schema_version)
    else if not (length r.metrics == 52)
    then some (wrong_count (length r.metrics))
    else validate_metrics 0 [] r.metrics

pub data Parsed : Type 0 where
  parsed : Registry → Parsed
  rejected : RegistryError → Parsed

abbrev pub parsed_if_valid : Registry → Option RegistryError → Parsed
parsed_if_valid r none = parsed r
parsed_if_valid r (some e) = rejected e

abbrev pub parse_decoded : Option Registry → Parsed
parse_decoded none = rejected decode_failed
parse_decoded (some r) = parsed_if_valid r (validate r)

-- ParseRegistry
unfoldable pub parse_registry : (List ℕ → Option Registry) → List ℕ → Parsed
unfolding validate
parse_registry unmarshal bytes = parse_decoded (unmarshal bytes)

-- Find
unfoldable pub find_metric : String → List Metric → Option Metric
find_metric id [] = none
find_metric id (m ∷ ms) = let later = find_metric id ms in if str_eq m.id id then some m else later

unfoldable pub any_is : String → List String → Bool
any_is role [] = false
any_is role (r ∷ rs) = let later = any_is role rs in if str_eq r role then true else later

-- AppliesToRole
unfoldable pub applies_to_role : Metric → String → Bool
unfolding any_is
applies_to_role m role = any_is role m.roles

abbrev pub id_of : Metric → String
id_of m = m.id

-- SortedIDs
unfoldable pub sorted_ids : Registry → List String
unfolding sort_strings
sorted_ids r = sort_strings (map id_of r.metrics)

-- UnavailableReasonFor
unfoldable pub unavailable_reason_for : String → String
unavailable_reason_for missing = if str_eq missing "" then "required_input_missing" else missing
