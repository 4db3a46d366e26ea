-- ===== src/Episodes/Types.antt =====
-- The episodes of internal/replay/episodes/episodes.go.
use dota2_ob.Prelude.{ℕ, String, Bool, List}
use dota2_ob.Prelude.Int.{ℤ}

abbrev pub kind_lane_segment : String
kind_lane_segment = "lane_segment"

abbrev pub kind_lane_departure : String
kind_lane_departure = "lane_departure"

abbrev pub kind_roam_attempt : String
kind_roam_attempt = "roam_attempt"

abbrev pub kind_farm_interval : String
kind_farm_interval = "farm_interval"

abbrev pub kind_rune_contest : String
kind_rune_contest = "rune_contest"

abbrev pub kind_smoke : String
kind_smoke = "smoke_activation"

abbrev pub kind_ward : String
kind_ward = "ward_placement"

abbrev pub kind_fight : String
kind_fight = "fight_interval"

abbrev pub kind_objective : String
kind_objective = "objective_attempt"

abbrev pub kind_reset : String
kind_reset = "reset"

abbrev pub kind_death_round : String
kind_death_round = "death_respawn_buyback_round"

abbrev pub kind_item_window : String
kind_item_window = "key_item_window"

abbrev pub unavail_lane_segment : String
unavail_lane_segment = "lane_segment"

abbrev pub unavail_lane_departure : String
unavail_lane_departure = "lane_departure"

abbrev pub unavail_roam_attempt : String
unavail_roam_attempt = "roam_attempt"

abbrev pub unavail_farm_interval : String
unavail_farm_interval = "farm_interval"

abbrev pub unavail_rune_contest : String
unavail_rune_contest = "rune_contest"

abbrev pub episode_rule_version : String
episode_rule_version = "ti2026.episodes.v1"

abbrev pub episode_schema : String
episode_schema = "replay.episodes.v1"

-- The confidence is 1.0 or 0.9, as a number of tenths.
pub record Episode (N : Type 0) : Type 0 where
  pub id : String
  pub match_id : String
  pub kind : String
  pub start_game_second : N
  pub end_game_second : N
  pub participants : List String
  pub account_id : String
  pub region : String
  pub detail : String
  pub evidence_ids : List ℤ
  pub rule_version : String
  pub missing_inputs : List String
  pub exclusions : List String
  pub confidence : ℤ

pub record Unavailable : Type 0 where
  pub kind : String
  pub match_id : String
  pub reason : String
  pub required_inputs : List String
  pub rule_version : String

pub record Output (N : Type 0) : Type 0 where
  pub schema_version : String
  pub rule_version : String
  pub match_id : String
  pub episodes : List (Episode N)
  pub unavailable : List Unavailable
  pub generated_at : String

pub record Builder (N : Type 0) : Type 0 where
  pub match_id : String
  pub account_name : List (String × String)
  pub episodes : List (Episode N)

pub record DeathRound (N : Type 0) : Type 0 where
  pub account : String
  pub death_sec : N
  pub respawn_sec : N
  pub buyback_sec : N
  pub closed : Bool

-- The accounts are the keys of a map to true.
pub record FightWindow (N : Type 0) : Type 0 where
  pub is_open : Bool
  pub start : N
  pub last : N
  pub accounts : List (String × Bool)
  pub seqs : List ℤ

-- What the loop of Build changes.
pub record Progress (N : Type 0) : Type 0 where
  pub builder : Builder N
  pub death_rounds : List (String × DeathRound N)
  pub fights : FightWindow N
  pub ward_seen : List (String × N)
  pub smoke_seen : List (String × Bool)
  pub facts_seen : ℕ
