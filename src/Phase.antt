-- ===== src/Phase.antt =====
-- internal/replay/phase/phase.go: the three-phase engine over a stream of inputs.
-- Go's `int` seconds are integers; a match stays far from the bounds of int64. float64 is the
-- parameter `N` with its order `num_lt` and the constant `one`: positions are stored and sorted, and
-- no phase depends on them. A Go map from seconds is a function, nil where nothing was written; the
-- maps with account keys are association lists. The map `missing` is made empty and never written,
-- so the list of its keys is empty.
pub mod Windows
pub mod Anchors
pub mod Rules
pub mod Steps
pub mod Tiling
pub mod Finalize
pub mod Tiled
pub mod Stream
pub mod PerSecond
pub mod Agreement
pub mod Ordered
pub mod Fed
pub mod Exact
mod Tests
use dota2_ob.Prelude.{
  ℕ, zero, suc, ◌+◌, ◌/◌, String, Bool, true, false, not, ◌&&◌, ◌||◌, Option, none, some, List, [],
  ◌∷◌, ◌++◌, map, ltb, leb, if◌then◌else◌, length, lookup, insert, is_empty, str_eq,
}
use dota2_ob.Prelude.Int.{ℤ, pos, negsuc, ◌+ℤ◌, ◌-ℤ◌, ltb_ℤ, leb_ℤ, eqb_ℤ, pos_part}
use Windows.{Seconds}

pub data Phase : Type 0 where
  pregame laning midgame decisive ended : Phase

unfoldable pub official : Phase → Bool
official laning = true
official midgame = true
official decisive = true
official pregame = false
official ended = false

abbrev pub phase_eq : Phase → Phase → Bool
phase_eq pregame pregame = true
phase_eq laning laning = true
phase_eq midgame midgame = true
phase_eq decisive decisive = true
phase_eq ended ended = true
phase_eq _ _ = false

abbrev pub is_decisive : Phase → Bool
is_decisive decisive = true
is_decisive _ = false

pub data InputKind : Type 0 where
  hero_death hero_buyback tower_death rax_death ancient_death hero_position damage respawn :
      InputKind

pub record Input (N : Type 0) : Type 0 where
  pub game_second : ℤ
  pub seq : ℤ
  pub kind : InputKind
  pub side : String
  pub account : String
  pub value : N
  pub x : N
  pub y : N
  pub respawn_sec : N

pub record Interval (N : Type 0) : Type 0 where
  pub start_game_second : ℤ
  pub end_game_second : ℤ
  pub global_phase : Phase
  pub round_index : ℕ
  pub confidence : N
  pub evidence_seqs : List ℤ
  pub missing_inputs : List String
  pub rule_version : String

pub record ResetEpisode : Type 0 where
  pub start_game_second : ℤ
  pub end_game_second : ℤ
  pub reason : String
  pub evidence_seqs : List ℤ
  pub rule_version : String

pub record Output (N : Type 0) : Type 0 where
  pub schema_version : String
  pub rule_version : String
  pub state : String
  pub reason : String
  pub intervals : List (Interval N)
  pub resets : List ResetEpisode
  pub missing_inputs : List String
  pub eligible_seconds : ℤ
  pub covered_seconds : ℤ

pub record PosSample (N : Type 0) : Type 0 where
  pub x : N
  pub y : N

abbrev pub phase_rule_version : String
phase_rule_version = "ti2026.phase.v1"

abbrev pub phase_schema : String
phase_schema = "replay.phase.v1"

pub record Engine (N : Type 0) : Type 0 where
  pub game_end_second : ℤ
  pub current : Phase
  pub current_start : ℤ
  pub round_index : ℕ
  pub last_second : ℤ
  pub deaths : Seconds String
  pub buybacks : Seconds String
  pub tower_deaths : Seconds String
  pub rax_deaths : Seconds String
  pub damage_heroes : Seconds String
  pub ancient_death_second : Option ℤ
  pub positions : List (String × List (ℤ × PosSample N))
  pub anchors : List (String × Option (PosSample N))
  pub anchor_second : List (String × ℤ)
  pub respawn_by_second : List (String × ℤ)
  pub last_alive_second : List (String × Bool)
  pub last_decisive_evidence : ℤ
  pub intervals : List (Interval N)
  pub resets : List ResetEpisode
  pub evidence : List ℤ
  pub has_ended : Bool

unfoldable pub new_engine : {N : Type 0} → ℤ → Engine N
new_engine game_end_second = record {
  game_end_second = game_end_second;
  current = laning;
  current_start = pos 0;
  round_index = 0;
  last_second = negsuc 0;
  deaths = λ t. [];
  buybacks = λ t. [];
  tower_deaths = λ t. [];
  rax_deaths = λ t. [];
  damage_heroes = λ t. [];
  ancient_death_second = none;
  positions = [];
  anchors = [];
  anchor_second = [];
  respawn_by_second = [];
  last_alive_second = [];
  last_decisive_evidence = negsuc 0;
  intervals = [];
  resets = [];
  evidence = [];
  has_ended = false;
}

abbrev pub max_int : ℤ → ℤ → ℤ
max_int a b = if ltb_ℤ b a then a else b

abbrev pub second_or_zero : Option ℤ → ℤ
second_or_zero none = pos 0
second_or_zero (some s) = s

abbrev pub samples_or_none : {N : Type 0} → Option (List (ℤ × PosSample N)) → List (ℤ × PosSample N)
samples_or_none none = []
samples_or_none (some samples) = samples

-- m[second] = sample
unfoldable pub put_sample :
    {N : Type 0} → ℤ → PosSample N → List (ℤ × PosSample N) → List (ℤ × PosSample N)
put_sample s p [] = (s, p) ∷ []
put_sample s p ((t, q) ∷ samples) =
    if eqb_ℤ s t then (s, p) ∷ samples else (t, q) ∷ put_sample s p samples
