-- ===== src/Facts/Tests.antt =====
-- The sample replay's combat log through internal/replay/facts/facts.go, with whole seconds for float64.
use dota2_ob.Prelude.{
  ℕ, ◌≡◌, refl, Bool, true, false, Option, none, some, List, [], ◌∷◌, All, lookup, insert,
}
use dota2_ob.Prelude.Int.{ℤ, pos}
use dota2_ob.Prelude.Text.{trim_prefix, upper_first, split_at, join}
use dota2_ob.Prelude.Sort.{sort_strings, sort_by, insert_by, string_lt, lex_lt}
use dota2_ob.Prelude.Decimal.{format_uint, format_digits, parse_uint, parse_digits}
use dota2_ob.Clock.{Clock, initial}
use dota2_ob.Clock.Tests.{seconds}
use dota2_ob.Raw.{Combat, Event}
use dota2_ob.Raw.Read.{line}
use dota2_ob.Identity.{Identity, state_verified, build as build_identity}
use dota2_ob.Identity.Sample.{hero_id_of, hero_name, account, sample_match, sample_summary}
use dota2_ob.Identity.{
  build as build_identity, team_gate, check_teams, sides_by_id, names_by_id, file_teams, file_ids,
  join_entities, team_at, team_num_for_id, team_tag, contains,
}
use dota2_ob.Identity.Participants.{
  build_participants, bind_players, bind_player, account_of, side_name, expected_by_account,
}
use dota2_ob.Facts.{build, Built}
use dota2_ob.Facts.Payloads.{Fact, Payload, family_death_respawn}
use dota2_ob.Facts.Accounts.{
  Builder, new_builder, add_participants, add_participant, class_for_hero, pascal, player_ref,
  account_ids_from_slots, slot_account,
}
use dota2_ob.Facts.Drafts.{fact_death, combat_draft}
use dota2_ob.Facts.Kept.{IsCounted}
use dota2_ob.Facts.Counted.{Covers, work_of, families_of, build-IsCounted}
use dota2_ob.Facts.Attributed.{IsListed, accounts, combat_draft_verified}

abbrev idn : Identity
idn = build_identity hero_id_of sample_summary sample_match

abbrev clk : Clock ℤ
clk = initial seconds [] (record {
  public_duration_seconds = pos 1800;
  end_time_unix = 9000;
  playback_seconds = pos 2000;
})

abbrev builder : Builder ℤ
builder = new_builder clk idn

-- The first player dies to the sixth, and the seventh assists.
abbrev death : Combat ℤ
death = record {
  seq = pos 9;
  type = "DOTA_COMBATLOG_DEATH";
  type_id = pos 4;
  ts = pos 300;
  ts_raw = pos 300;
  tick = 9000;
  attacker_idx = none;
  target_idx = none;
  inflictor_idx = none;
  attacker_name = hero_name 5;
  target_name = hero_name 0;
  inflictor_name = "";
  is_attacker_hero = some true;
  is_target_hero = some true;
  is_target_building = some false;
  value = none;
  health = none;
  gold_reason = none;
  xp_reason = none;
  last_hits = none;
  attacker_team = some 3;
  target_team = some 2;
  assist_players = pos 6 ∷ [];
  networth = none;
  building_type = none;
  obs_wards_placed = none;
  rune_type = none;
  damage_type = none;
  is_heal_save = none;
  is_ultimate = none;
  location_x = none;
  location_y = none;
  modifier_duration = none;
  ability_level = none;
  is_ability_toggle_on = none;
}

abbrev event : Event ℤ
event = record {
  kind = "combat";
  seq = pos 1;
  file_info = none;
  header = none;
  engine = none;
  game_state = none;
  combat = some death;
  hero_state = none;
  team_state = none;
  player_res = none;
  parse_done = none;
  parse_failed = none;
}

abbrev marshal : Payload ℤ → Option (List ℕ)
marshal p = some (1 ∷ [])

abbrev accepts : List (Fact ℤ) → Fact ℤ → Bool
accepts before x = true

abbrev result : Built ℤ
result = build seconds marshal builder accepts (line event ∷ [])

build-IsCounted_example :
    IsCounted (work_of result) × All (Covers (work_of result).emitted) (families_of result)
build-IsCounted_example = build-IsCounted seconds marshal builder accepts (line event ∷ [])

identified : idn.state ≡ state_verified
unfolding build_identity team_gate check_teams sides_by_id names_by_id file_teams file_ids
    join_entities team_at team_num_for_id team_tag contains build_participants bind_players
    bind_player account_of side_name expected_by_account insert lookup sort_strings sort_by
    insert_by string_lt lex_lt format_uint format_digits parse_uint parse_digits
identified = refl

drafted : combat_draft builder death ≡ some (family_death_respawn, fact_death builder death)
unfolding combat_draft
drafted = refl

combat_draft_verified_example :
    All (IsListed sample_match.expected_participants) (accounts (fact_death builder death))
combat_draft_verified_example =
    combat_draft_verified hero_id_of sample_summary sample_match clk death family_death_respawn
      (fact_death builder death) identified drafted

named : accounts (fact_death builder death) ≡ account 0 ∷ account 5 ∷ account 6 ∷ []
unfolding accounts fact_death player_ref account_ids_from_slots slot_account new_builder
    add_participants add_participant class_for_hero pascal trim_prefix upper_first split_at join
    build_identity team_gate check_teams sides_by_id names_by_id file_teams file_ids join_entities
    team_at team_num_for_id team_tag contains build_participants bind_players bind_player account_of
    side_name expected_by_account insert lookup sort_strings sort_by insert_by string_lt lex_lt
    format_uint format_digits parse_uint parse_digits
named = refl
