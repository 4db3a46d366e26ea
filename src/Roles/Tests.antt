-- ===== src/Roles/Tests.antt =====
-- A registry of one match, with an override for one of its two players.
use dota2_ob.Prelude.{◌≡◌, refl, true, none, some, [], ◌∷◌, String}
use dota2_ob.Prelude.Int.{pos}
use dota2_ob.Roles.{
  RoleTeam, RoleRecord, Registry, Override, OverrideFile, EffectiveRole, effective, raw, raw_in,
  raw_in_match, raw_in_team, apply_first,
}
use dota2_ob.Roles.Lookup.{rows, first_row, raw-eq-first_row}
use dota2_ob.Roles.Provenance.{FirstRow, IsSourced, effective-IsSourced}
use dota2_ob.Roles.Shown.{Overridden, effective-Overridden}

abbrev player : String → String → RoleRecord
player account role = record {
  role_record_id = "r";
  account_id = account;
  player_name = "n";
  expected_hero_id = pos 1;
  nominal_role = role;
  role_confidence = "high";
}

abbrev registry : Registry
registry = record {
  schema_version = "v1";
  tournament_id = "t";
  matches =
      record {
        match_id = "m";
        teams =
            record {
              team_id = "1";
              team_name = "team";
              side = "radiant";
              source_kind = "public";
              source_url = "u";
              source_locator = "l";
              retrieved_at = "d";
              participants = player "7" "mid" ∷ player "8" "support" ∷ [];
            }
            ∷ [];
      }
      ∷ [];
}

abbrev override : String → Override
override account = record {
  match_id = "m";
  account_id = account;
  nominal_role = "carry";
  reason = "swap";
  applied_at = "";
  author = "a";
}

abbrev file : OverrideFile
file = record { schema_version = "v1"; overrides = override "8" ∷ override "7" ∷ [] }

abbrev overridden_role : EffectiveRole
overridden_role = record {
  tournament_id = "t";
  match_id = "m";
  team_id = "1";
  team_name = "team";
  account_id = "7";
  player_name = "n";
  source_nominal_role = "mid";
  nominal_role = "carry";
  source_kind = "public";
  source_url = "u";
  source_locator = "l";
  retrieved_at = "d";
  confidence = "high";
  record_version = "v1";
  override_applied = true;
  override_reason = some "swap";
  override_at = none;
  override_author = some "a";
  override_version = some "ti2026.roles.v1";
}

raw-eq-first_row_example : raw registry "m" "8" ≡ first_row "m" "8" (rows registry.matches)
raw-eq-first_row_example = raw-eq-first_row registry "m" "8"

effective-IsSourced_example :
    (t : RoleTeam) × (p : RoleRecord) × FirstRow "m" "7" (rows registry.matches) t p
    × IsSourced registry "m" "7" t p overridden_role
unfolding effective raw raw_in raw_in_match raw_in_team apply_first
effective-IsSourced_example = effective-IsSourced registry "m" "7" (some file) overridden_role refl

effective-Overridden_example : Overridden "m" "7" file.overrides overridden_role
unfolding effective raw raw_in raw_in_match raw_in_team apply_first
effective-Overridden_example =
    effective-Overridden registry "m" "7" (some file) overridden_role refl
