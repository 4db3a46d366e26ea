-- ===== src/Episodes.antt =====
-- internal/replay/episodes/episodes.go: the episodes of a fact stream.
-- float64 is the parameter `FloatOps`, and json.Unmarshal of the payloads the parameter `Decoders`. A
-- Go map is an association list. The payload of a combat fact is decoded and not used, and a
-- reader's fact is `some`, or `none` where it cannot be read.
pub mod Types
pub mod Window
pub mod Handlers
pub mod Clusters
pub mod Quiet
pub mod Fights
pub mod Events
pub mod Ended
pub mod Rounds
mod Tests
use dota2_ob.Prelude.{
  ℕ, suc, ◌+◌, String, Bool, true, false, not, ◌&&◌, ◌||◌, Option, none, some, List, [], ◌∷◌, ◌++◌,
  ◌==◌, ltb, leb, if◌then◌else◌, length, is_empty, is_some, lookup, insert, str_eq,
}
use dota2_ob.Prelude.Int.{ℤ, pos, ltb_ℤ}
use dota2_ob.Prelude.Sort.{sort_by, sort_strings, string_lt}
use dota2_ob.Prelude.Text.{contains_text}
use dota2_ob.Prelude.Decimal.{format_uint, format_int}
use dota2_ob.Clock.{FloatOps}
use dota2_ob.Facts.Payloads.{
  Fact, DeathRespawnBuyback, ObjectiveFact, VisionFact, ModifierFact, family_death_respawn,
  family_objective, family_vision, family_modifier,
}
use dota2_ob.Episodes.Types.{
  Episode, Unavailable, Output, Builder, DeathRound, FightWindow, kind_fight, kind_death_round,
  kind_objective, kind_ward, kind_smoke, unavail_lane_segment, unavail_lane_departure,
  unavail_roam_attempt, unavail_farm_interval, unavail_rune_contest, episode_rule_version,
  episode_schema,
}
use dota2_ob.Episodes.Types.{Progress}
use dota2_ob.Episodes.Window.{
  ◌<>◌, keys_of, blank, one_later, added, add, earlier, episodes, new_fight_window, fight_episode,
  shut, close, opened, extended, far_apart, add_death,
}
use dota2_ob.Episodes.Handlers.{
  handle_death, round_episode, end_round, bought_back, respawned, handle_buyback, handle_respawn,
  with_fight, count_death, with_rounds, on_death_fact, objective_episode, on_objective,
  ward_episode, is_ward, ward_key, with_ward, first_ward, on_vision, smoke_episode, or_false,
  smoke_key, with_smoke, first_smoke, is_smoke, on_modifier,
}

-- json.Unmarshal into the payload of a family, with `none` for an error
pub record Decoders (N : Type 0) : Type 0 where
  pub death : Option (List ℕ) → Option (DeathRespawnBuyback N)
  pub objective : Option (List ℕ) → Option ObjectiveFact
  pub vision : Option (List ℕ) → Option (VisionFact N)
  pub modifier : Option (List ℕ) → Option (ModifierFact N)

-- NewBuilder
abbrev pub new_builder : {N : Type 0} → String → List (String × String) → Builder N
new_builder match_id account_name = record {
  match_id = match_id;
  account_name = account_name;
  episodes = [];
}

module _ {N : Type 0} (f : FloatOps N) where
  -- A payload that cannot be decoded is passed over.
  abbrev pub if_decoded :
      {A : Type 0} → Option A → (A → Progress N → Progress N) → Progress N → Progress N
  if_decoded none k p = p
  if_decoded (some a) k p = k a p

  -- One fact.
  unfoldable pub on_fact : Decoders N → Fact N → Progress N → Progress N
  unfolding on_death_fact objective_episode add on_vision on_modifier
  on_fact dec x p =
      let p' : Progress N = record p { facts_seen = p.facts_seen + 1 } in
      if str_eq x.family family_death_respawn
      then if_decoded (dec.death x.payload) (on_death_fact f x) p'
      else if str_eq x.family family_objective
      then if_decoded (dec.objective x.payload) (on_objective f x) p'
      else if str_eq x.family family_vision
      then if_decoded (dec.vision x.payload) (on_vision f x) p'
      else if str_eq x.family family_modifier
      then if_decoded (dec.modifier x.payload) (on_modifier f x) p'
      else p'

  abbrev pub initial : String → List (String × String) → Progress N
  initial match_id account_name = record {
    builder = new_builder match_id account_name;
    death_rounds = [];
    fights = new_fight_window f;
    ward_seen = [];
    smoke_seen = [];
    facts_seen = 0;
  }

  -- The loop: `none` is an error of the reader.
  unfoldable pub run : Decoders N → List (Option (Fact N)) → Progress N → Option (Progress N)
  unfolding on_fact
  run dec [] p = some p
  run dec (none ∷ xs) p = none
  run dec (some x ∷ xs) p = run dec xs (on_fact dec x p)

  -- flush
  unfoldable pub flush : Progress N → Progress N
  unfolding close
  flush p = with_fight f (close f p.fights p.builder) p

  abbrev lacking : String → String → String → List String → Unavailable
  lacking match_id kind reason inputs = record {
    kind = kind;
    match_id = match_id;
    reason = reason;
    required_inputs = inputs;
    rule_version = episode_rule_version;
  }

  unfoldable pub unavailable_families : String → List Unavailable
  unavailable_families match_id =
      lacking match_id unavail_lane_segment "map_geometry_not_loaded"
        ("map_geometry" ∷ "lane_polygons" ∷ "build_version" ∷ [])
      ∷ lacking match_id unavail_lane_departure "lane_segments_unavailable"
          ("lane_segment_stream" ∷ "map_geometry" ∷ [])
      ∷ lacking match_id unavail_roam_attempt "roam_rule_needs_teleport_and_lane_context"
          ("teleport_events" ∷ "lane_segment_stream" ∷ [])
      ∷ lacking match_id unavail_farm_interval "farm_interval_needs_economy_deltas"
          ("economy_sample" ∷ "last_hit_deny_stream" ∷ [])
      ∷ lacking match_id unavail_rune_contest "rune_contest_needs_rune_state"
          ("rune_state_stream" ∷ "rune_ownership" ∷ [])
      ∷ []

  -- The output; of no facts it has no episodes.
  unfoldable pub output_of : String → Progress N → Output N
  unfolding episodes unavailable_families
  output_of match_id p = record {
    schema_version = episode_schema;
    rule_version = episode_rule_version;
    match_id = match_id;
    episodes = if p.facts_seen == 0 then [] else episodes f p.builder;
    unavailable = unavailable_families match_id;
    generated_at = "";
  }

  abbrev pub finish : String → Option (Progress N) → Option (Output N)
  finish match_id none = none
  finish match_id (some p) = some (output_of match_id (flush p))

  -- Build
  unfoldable pub build :
      Decoders N → String → List (String × String) → List (Option (Fact N)) → Option (Output N)
  unfolding run flush output_of
  build dec match_id account_name xs = finish match_id (run dec xs (initial match_id account_name))
