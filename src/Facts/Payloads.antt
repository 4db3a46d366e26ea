-- ===== src/Facts/Payloads.antt =====
-- The fact families of internal/replay/facts/facts.go and the facts' payloads.
use dota2_ob.Prelude.{ℕ, String, Bool, Option, List}
use dota2_ob.Prelude.Int.{ℤ}

abbrev pub family_match_state : String
family_match_state = "match_state"

abbrev pub family_participant : String
family_participant = "participant_binding"

abbrev pub family_hero_state : String
family_hero_state = "hero_state_sample"

abbrev pub family_economy : String
family_economy = "economy_sample"

abbrev pub family_combat : String
family_combat = "combat_event"

abbrev pub family_objective : String
family_objective = "objective_event"

abbrev pub family_death_respawn : String
family_death_respawn = "death_respawn_buyback_event"

abbrev pub family_item : String
family_item = "item_event"

abbrev pub family_ability : String
family_ability = "ability_event"

abbrev pub family_modifier : String
family_modifier = "modifier_event"

abbrev pub family_vision : String
family_vision = "vision_event"

abbrev pub family_entity_lifecycle : String
family_entity_lifecycle = "entity_lifecycle_event"

pub record Fact (N : Type 0) : Type 0 where
  pub seq : ℕ
  pub family : String
  pub match_id : String
  pub game_second : N
  pub game_second_ok : Bool
  pub tick : ℕ
  pub source_seq : ℤ
  pub schema_version : String
  -- `none` is the nil RawMessage that an error of json.Marshal leaves
  pub payload : Option (List ℕ)

pub record MatchState (N : Type 0) : Type 0 where
  pub match_id : String
  pub game_mode : ℤ
  pub game_winner : ℤ
  pub league_id : ℕ
  pub game_build : ℕ
  pub duration_sec : Option N
  pub winner_side : String
  pub source_kind : String
  pub schema_version : String

pub record ParticipantFact : Type 0 where
  pub slot : ℤ
  pub account_id : String
  pub steam_id64 : ℕ
  pub player_name : String
  pub hero_name : String
  pub hero_id : ℤ
  pub side : String
  pub team : ℤ
  pub binding_source : String
  pub schema_version : String

pub record HeroStateSample (N : Type 0) : Type 0 where
  pub account_id : String
  pub hero_name : String
  pub side : String
  pub pos_x : Option N
  pub pos_y : Option N
  pub pos_z : Option N
  pub health : Option ℤ
  pub max_health : Option ℤ
  pub level : Option ℤ
  pub xp : Option ℤ
  pub alive : Option Bool
  pub respawn_remaining : Option N
  pub missing : List String

pub record EconomySample : Type 0 where
  pub account_id : String
  pub hero_name : String
  pub networth : Option ℕ
  pub last_hits : Option ℕ
  pub gold : Option ℤ
  pub xp : Option ℤ
  pub reason : Option ℕ
  pub missing : List String

pub record CombatFact (N : Type 0) : Type 0 where
  pub kind : String
  pub actor_account : String
  pub actor_name : String
  pub target_account : String
  pub target_name : String
  pub inflictor : String
  pub value : Option ℤ
  pub location_x : Option N
  pub location_y : Option N
  pub attacker_team : Option ℕ
  pub target_team : Option ℕ
  pub damage_type : Option ℕ
  pub is_heal_save : Option Bool
  pub is_ultimate : Option Bool
  pub assist_players : List String
  pub missing : List String

pub record ObjectiveFact : Type 0 where
  pub building_name : String
  pub building_kind : String
  pub building_tier : Option ℕ
  pub building_lane : String
  pub team : String
  pub actor_account : String
  pub actor_name : String
  pub attackers : List String
  pub is_real_building : Bool
  pub exclusion : String
  pub missing : List String

pub record DeathRespawnBuyback (N : Type 0) : Type 0 where
  pub kind : String
  pub account_id : String
  pub hero_name : String
  pub side : String
  pub killer_account : String
  pub killer_name : String
  pub assist_accounts : List String
  pub respawn_time : Option N
  pub buyback_cost : Option ℤ
  pub death_value : Option ℤ
  pub missing : List String

pub record ItemFact : Type 0 where
  pub kind : String
  pub account_id : String
  pub hero_name : String
  pub item_name : String
  pub cost : Option ℤ
  pub slot : Option ℕ
  pub missing : List String

pub record AbilityFact : Type 0 where
  pub account_id : String
  pub hero_name : String
  pub ability_name : String
  pub level : Option ℕ
  pub target_account : String
  pub target_name : String
  pub missing : List String

pub record ModifierFact (N : Type 0) : Type 0 where
  pub kind : String
  pub account_id : String
  pub hero_name : String
  pub modifier : String
  pub duration : Option N
  pub source_account : String
  pub source_name : String
  pub missing : List String

pub record VisionFact (N : Type 0) : Type 0 where
  pub kind : String
  pub account_id : String
  pub hero_name : String
  pub team : String
  pub location_x : Option N
  pub location_y : Option N

pub record EntityLifecycle : Type 0 where
  pub kind : String
  pub account_id : String
  pub hero_name : String
  pub side : String

pub record HeroBinding : Type 0 where
  pub account_id : String
  pub hero_name : String
  pub side : String
  pub class : String

pub record Coverage : Type 0 where
  pub family : String
  pub count : ℕ
  pub eligible : ℤ
  pub missing : ℕ
  pub unavailable_reason : String
  pub available : Bool

pub record Summary (N : Type 0) : Type 0 where
  pub schema_version : String
  pub match_id : String
  pub families : List Coverage
  pub hero_bindings : List HeroBinding
  pub game_second_min : N
  pub game_second_max : N
  pub eligible_seconds : ℤ
  pub position_gaps : List (String × ℤ)
  pub raw_events : ℕ
  pub combat_events : ℕ

-- A value that is given to json.Marshal.
pub data Payload (N : Type 0) : Type 0 where
  match_state : MatchState N → Payload N
  participant : ParticipantFact → Payload N
  hero_state : HeroStateSample N → Payload N
  economy : EconomySample → Payload N
  combat : CombatFact N → Payload N
  objective : ObjectiveFact → Payload N
  death : DeathRespawnBuyback N → Payload N
  item : ItemFact → Payload N
  ability : AbilityFact → Payload N
  modifier : ModifierFact N → Payload N
