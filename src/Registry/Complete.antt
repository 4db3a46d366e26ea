-- ===== src/Registry/Complete.antt =====
-- The registry that Validate accepts.
use mathlib.Core.Logic.{◌↔◌}
use mathlib.Core.Option.{none-ne-some}
use dota2_ob.Prelude.Guards.{guard_passed, test_passed}
use dota2_ob.Prelude.{
  ℕ, suc, ◌≡◌, refl, sym, ap, ◌∙◌, String, Bool, true, false, not, ◌||◌, Option, none, some, List,
  [], ◌∷◌, map, ◌==◌, ==_iff, All, length, is_empty, lookup, insert, str_eq, eq_iff, arith, if_else,
}
use dota2_ob.Prelude.Keys.{was_seen, Distinct, Unseen, Unseen-nil, Unseen-insert}
use dota2_ob.Registry.{
  Metric, Registry, RegistryError, registry_schema_version, metric_error, first_error,
  validate_metrics, validate, id_of,
}

abbrev IsNamed : String → Type 0
IsNamed s = str_eq s "" ≡ false

-- A metric with the fields that Validate looks at.
pub record IsComplete (m : Metric) : Type 0 where
  pub id : IsNamed m.id
  pub name : IsNamed m.name
  pub unit : IsNamed m.unit
  pub aggregation : IsNamed m.aggregation_rule
  pub capability : IsNamed m.capability_level
  pub class : IsNamed m.epistemic_class
  pub version : IsNamed m.metric_version
  pub level : IsNamed m.report_level
  pub families : is_empty m.required_fact_families ≡ false
  pub gates : is_empty m.field_quality_gates ≡ false
  pub evidence : is_empty m.evidence_record_shape.required ≡ false
  pub abstention : IsNamed m.abstention_rule
  pub publication : IsNamed m.score_publication_gate.rule

none_of_four :
    (a b c d : Bool)
    → (a || b || c || d) ≡ false
    → (a ≡ false) × (b ≡ false) × (c ≡ false) × (d ≡ false)
none_of_four a b c d h = ground arith

metric_error-IsComplete :
    (i : ℕ) (seen : Bool) (m : Metric)
    → metric_error i seen m ≡ none
    → IsComplete m × (seen ≡ false)
unfolding metric_error
metric_error-IsComplete i seen m h =
    let (identity, h1) = test_passed _ _ _ h in
    let (contract, h2) = test_passed _ _ _ h1 in
    let (families, h3) = test_passed (is_empty m.required_fact_families) _ _ h2 in
    let (gates, h4) = test_passed (is_empty m.field_quality_gates) _ _ h3 in
    let (evidence, h5) = test_passed (is_empty m.evidence_record_shape.required) _ _ h4 in
    let (abstention, h6) = test_passed (str_eq m.abstention_rule "") _ _ h5 in
    let (publication, h7) = test_passed (str_eq m.score_publication_gate.rule "") _ _ h6 in
    let (new, _) = test_passed seen _ _ h7 in
    let (id, name, unit, aggregation) =
      none_of_four (str_eq m.id "") (str_eq m.name "") (str_eq m.unit "")
        (str_eq m.aggregation_rule "") identity in
    let (capability, class, version, level) =
      none_of_four (str_eq m.capability_level "") (str_eq m.epistemic_class "")
        (str_eq m.metric_version "") (str_eq m.report_level "") contract in
    (
      record {
        id = id;
        name = name;
        unit = unit;
        aggregation = aggregation;
        capability = capability;
        class = class;
        version = version;
        level = level;
        families = families;
        gates = gates;
        evidence = evidence;
        abstention = abstention;
        publication = publication;
      },
      new,
    )

IsComplete-metric_error : (i : ℕ) (m : Metric) → IsComplete m → metric_error i false m ≡ none
unfolding metric_error
IsComplete-metric_error i m c = rw (
  c.id, c.name, c.unit, c.aggregation, c.capability, c.class, c.version, c.level, c.families,
  c.gates, c.evidence, c.abstention, c.publication,
)

first_error-none :
    (e rest : Option RegistryError) → first_error e rest ≡ none → (e ≡ none) × (rest ≡ none)
first_error-none none rest h = (refl, h)
first_error-none (some e) rest h = absurd (none-ne-some _ (sym h))

validate_metrics_sound :
    (i : ℕ) (seen : List (String × Bool)) (ms : List Metric)
    → validate_metrics i seen ms ≡ none
    → All IsComplete ms × Distinct (map id_of ms) × Unseen seen (map id_of ms)
unfolding validate_metrics
validate_metrics_sound i seen [] h = (tt, tt, tt)
validate_metrics_sound i seen (m ∷ ms) h =
    let (fine, later) = first_error-none (metric_error i (was_seen (lookup m.id seen)) m) _ h in
    let (complete, new) = metric_error-IsComplete i (was_seen (lookup m.id seen)) m fine in
    let (all, distinct, unseen) = validate_metrics_sound (suc i) (insert m.id true seen) ms later in
    let (others, before) = (Unseen-insert m.id seen (map id_of ms)).0 unseen in
    ((complete, all), (others, distinct), (new, before))

validate_metrics_complete :
    (i : ℕ) (seen : List (String × Bool)) (ms : List Metric)
    → All IsComplete ms
    → Distinct (map id_of ms)
    → Unseen seen (map id_of ms)
    → validate_metrics i seen ms ≡ none
unfolding validate_metrics
validate_metrics_complete i seen [] c d u = refl
validate_metrics_complete i seen (m ∷ ms) c d u =
    rw (u.0, IsComplete-metric_error i m c.0)
      (validate_metrics_complete (suc i) (insert m.id true seen) ms c.1 d.1
        ((Unseen-insert m.id seen (map id_of ms)).1 (d.0, u.1)))

-- Validate accepts exactly the registries of the schema's version with 52 metrics whose ids are
-- distinct and of which each has an id, a name, a unit, an aggregation rule, a capability level, an
-- epistemic class, a version, a report level, an abstention rule and a rule of its publication gate
-- that are not empty, and a required fact family, a field quality gate and a required part of its
-- evidence record at least. The other fields of a metric may be empty.
pub validate-IsComplete :
    (r : Registry)
    → (validate r ≡ none) ↔ (
        (r.schema_version ≡ registry_schema_version)
        × (length r.metrics ≡ 52)
        × All IsComplete r.metrics
        × Distinct (map id_of r.metrics))
unfolding validate
validate-IsComplete r = (
  λ h.
      let (schema, counted) =
        guard_passed (str_eq r.schema_version registry_schema_version) _ _ h in
      let (count, checked) = guard_passed (length r.metrics == 52) _ _ counted in
      let (all, distinct, unseen) = validate_metrics_sound 0 [] r.metrics checked in
      (
        (eq_iff r.schema_version registry_schema_version).0 schema,
        (==_iff (length r.metrics) 52).0 count,
        all,
        distinct,
      ),
  λ c.
      if_else (not (str_eq r.schema_version registry_schema_version)) _ _
        (ap not ((eq_iff r.schema_version registry_schema_version).1 c.0))
      ∙ if_else (not (length r.metrics == 52)) _ _ (ap not ((==_iff (length r.metrics) 52).1 c.1))
      ∙ validate_metrics_complete 0 [] r.metrics c.2 c.3 (Unseen-nil (map id_of r.metrics)),
)
