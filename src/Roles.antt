-- ===== src/Roles.antt =====
-- internal/replay/roles/roles.go: the nominal roles of a match, and the manual overrides of them.
-- Reading and decoding the two files is not modelled. A nil *OverrideFile is `none`, and so is an
-- override string that is left nil.
pub mod Lookup
pub mod Provenance
pub mod Shown
mod Tests
use dota2_ob.Prelude.{
  String, Bool, true, false, ◌&&◌, Option, none, some, List, [], ◌∷◌, is_empty, str_eq,
  if◌then◌else◌,
}
use dota2_ob.Prelude.Int.{ℤ}

pub record RoleRecord : Type 0 where
  pub role_record_id : String
  pub account_id : String
  pub player_name : String
  pub expected_hero_id : ℤ
  pub nominal_role : String
  pub role_confidence : String

pub record RoleTeam : Type 0 where
  pub team_id : String
  pub team_name : String
  pub side : String
  pub source_kind : String
  pub source_url : String
  pub source_locator : String
  pub retrieved_at : String
  pub participants : List RoleRecord

pub record RoleMatch : Type 0 where
  pub match_id : String
  pub teams : List RoleTeam

pub record Registry : Type 0 where
  pub schema_version : String
  pub tournament_id : String
  pub matches : List RoleMatch

pub record Override : Type 0 where
  pub match_id : String
  pub account_id : String
  pub nominal_role : String
  pub reason : String
  pub applied_at : String
  pub author : String

pub record OverrideFile : Type 0 where
  pub schema_version : String
  pub overrides : List Override

pub record EffectiveRole : Type 0 where
  pub tournament_id : String
  pub match_id : String
  pub team_id : String
  pub team_name : String
  pub account_id : String
  pub player_name : String
  pub source_nominal_role : String
  pub nominal_role : String
  pub source_kind : String
  pub source_url : String
  pub source_locator : String
  pub retrieved_at : String
  pub confidence : String
  pub record_version : String
  pub override_applied : Bool
  pub override_reason : Option String
  pub override_at : Option String
  pub override_author : Option String
  pub override_version : Option String

pub record RawRole : Type 0 where
  pub team_id : String
  pub team_name : String
  pub player_name : String
  pub nominal_role : String
  pub confidence : String
  pub source_kind : String
  pub source_url : String
  pub source_locator : String
  pub retrieved_at : String

abbrev pub role_schema : String
role_schema = "ti2026.roles.v1"

abbrev pub raw_role : RoleTeam → RoleRecord → RawRole
raw_role t p = record {
  team_id = t.team_id;
  team_name = t.team_name;
  player_name = p.player_name;
  nominal_role = p.nominal_role;
  confidence = p.role_confidence;
  source_kind = t.source_kind;
  source_url = t.source_url;
  source_locator = t.source_locator;
  retrieved_at = t.retrieved_at;
}

-- The loop over a team's participants; `rest` is what the loops around it go on with.
unfoldable pub raw_in_team : String → RoleTeam → List RoleRecord → Option RawRole → Option RawRole
raw_in_team account t [] rest = rest
raw_in_team account t (p ∷ ps) rest =
    let later = raw_in_team account t ps rest in
    if str_eq p.account_id account then some (raw_role t p) else later

unfoldable pub raw_in_match : String → List RoleTeam → Option RawRole → Option RawRole
unfolding raw_in_team
raw_in_match account [] rest = rest
raw_in_match account (t ∷ ts) rest =
    raw_in_team account t t.participants (raw_in_match account ts rest)

unfoldable pub raw_in : String → String → List RoleMatch → Option RawRole
unfolding raw_in_match
raw_in match_id account [] = none
raw_in match_id account (m ∷ ms) =
    let later = raw_in match_id account ms in
    if str_eq m.match_id match_id then raw_in_match account m.teams later else later

-- (*Registry).raw
unfoldable pub raw : Registry → String → String → Option RawRole
unfolding raw_in
raw r match_id account = raw_in match_id account r.matches

abbrev pub base_role : Registry → String → String → RawRole → EffectiveRole
base_role r match_id account base = record {
  tournament_id = r.tournament_id;
  match_id = match_id;
  team_id = base.team_id;
  team_name = base.team_name;
  account_id = account;
  player_name = base.player_name;
  source_nominal_role = base.nominal_role;
  nominal_role = base.nominal_role;
  source_kind = base.source_kind;
  source_url = base.source_url;
  source_locator = base.source_locator;
  retrieved_at = base.retrieved_at;
  confidence = base.confidence;
  record_version = r.schema_version;
  override_applied = false;
  override_reason = none;
  override_at = none;
  override_author = none;
  override_version = none;
}

abbrev pub unless_empty : String → Option String
unless_empty s = if str_eq s "" then none else some s

abbrev pub apply_override : Override → EffectiveRole → EffectiveRole
apply_override o eff = record eff {
  nominal_role = o.nominal_role;
  override_applied = true;
  override_reason = some o.reason;
  override_at = unless_empty o.applied_at;
  override_author = unless_empty o.author;
  override_version = some role_schema;
}

abbrev pub is_for : String → String → Override → Bool
is_for match_id account o = str_eq o.match_id match_id && str_eq o.account_id account

-- The loop over the overrides, which stops at the first one for the pair.
unfoldable pub apply_first : String → String → List Override → EffectiveRole → EffectiveRole
apply_first match_id account [] eff = eff
apply_first match_id account (o ∷ os) eff =
    let later = apply_first match_id account os eff in
    if is_for match_id account o then apply_override o eff else later

abbrev pub overridden : String → String → Option OverrideFile → EffectiveRole → EffectiveRole
overridden match_id account none eff = eff
overridden match_id account (some file) eff = apply_first match_id account file.overrides eff

abbrev pub effective_of :
    Registry → String → String → Option OverrideFile → Option RawRole → Option EffectiveRole
effective_of r match_id account overrides none = none
effective_of r match_id account overrides (some base) =
    some (overridden match_id account overrides (base_role r match_id account base))

-- (*Registry).Effective
unfoldable pub effective : Registry → String → String → Option OverrideFile → Option EffectiveRole
unfolding raw apply_first
effective r match_id account overrides =
    effective_of r match_id account overrides (raw r match_id account)
