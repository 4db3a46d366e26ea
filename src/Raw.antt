-- ===== src/Raw.antt =====
-- internal/replay/raw/raw.go: the raw observations. float64 and float32 are the parameter `N`; a
-- pointer is an Option; unsigned integers are numbers and signed ones are integers.
pub mod Summaries
use dota2_ob.Prelude.{
  ℕ, suc, String, Bool, Option, none, some, List, [], ◌∷◌, ◌++◌, if◌then◌else◌, true, false,
}
use dota2_ob.Prelude.Int.{ℤ, pos, ◌+ℤ◌}

abbrev pub kind_file_info : String
kind_file_info = "file_info"

abbrev pub kind_header : String
kind_header = "header"

abbrev pub kind_engine : String
kind_engine = "engine"

abbrev pub kind_game_state : String
kind_game_state = "game_state"

abbrev pub kind_combat : String
kind_combat = "combat"

abbrev pub kind_hero_state : String
kind_hero_state = "hero_state"

abbrev pub kind_team_state : String
kind_team_state = "team_state"

abbrev pub kind_player_res : String
kind_player_res = "player_resource"

abbrev pub kind_parse_done : String
kind_parse_done = "parse_done"

abbrev pub kind_parse_failed : String
kind_parse_failed = "parse_failed"

pub record PlayerInfo : Type 0 where
  pub hero_name : String
  pub player_name : String
  pub is_fake_client : Bool
  pub steam_id : ℕ
  pub game_team : ℤ

pub record FileInfo (N : Type 0) : Type 0 where
  pub match_id : ℕ
  pub game_mode : ℤ
  pub game_winner : ℤ
  pub league_id : ℕ
  pub radiant_team_id : ℕ
  pub dire_team_id : ℕ
  pub radiant_tag : String
  pub dire_tag : String
  pub end_time : ℕ
  pub playback_ticks : ℤ
  pub playback_time : N
  pub players : List PlayerInfo
  pub picks_bans : ℤ

pub record Header : Type 0 where
  pub server_name : String

pub record Engine : Type 0 where
  pub game_build : ℕ
  pub game_dir : String
  pub map_name : String

pub record GameState (N : Type 0) : Type 0 where
  pub combat_ts : N
  pub tick : ℕ
  pub state : ℤ

pub record Combat (N : Type 0) : Type 0 where
  pub seq : ℤ
  pub type : String
  pub type_id : ℤ
  pub ts : N
  pub ts_raw : N
  pub tick : ℕ
  pub attacker_idx : Option ℕ
  pub target_idx : Option ℕ
  pub inflictor_idx : Option ℕ
  pub attacker_name : String
  pub target_name : String
  pub inflictor_name : String
  pub is_attacker_hero : Option Bool
  pub is_target_hero : Option Bool
  pub is_target_building : Option Bool
  pub value : Option ℤ
  pub health : Option ℤ
  pub gold_reason : Option ℕ
  pub xp_reason : Option ℕ
  pub last_hits : Option ℕ
  pub attacker_team : Option ℕ
  pub target_team : Option ℕ
  pub assist_players : List ℤ
  pub networth : Option ℕ
  pub building_type : Option ℕ
  pub obs_wards_placed : Option ℕ
  pub rune_type : Option ℕ
  pub damage_type : Option ℕ
  pub is_heal_save : Option Bool
  pub is_ultimate : Option Bool
  pub location_x : Option N
  pub location_y : Option N
  pub modifier_duration : Option N
  pub ability_level : Option ℕ
  pub is_ability_toggle_on : Option Bool

pub record HeroState (N : Type 0) : Type 0 where
  pub tick : ℕ
  pub hero_index : ℤ
  pub class : String
  pub player_id : Option ℤ
  pub team_num : Option ℤ
  pub pos_x : Option N
  pub pos_y : Option N
  pub pos_z : Option N
  pub health : Option ℤ
  pub max_health : Option ℤ
  pub mana : Option N
  pub max_mana : Option N
  pub level : Option ℤ
  pub xp : Option ℤ
  pub respawn_time : Option N
  pub buyback_available : Option Bool
  pub alive : Option Bool
  pub networth : Option ℕ

pub record TeamState : Type 0 where
  pub tick : ℕ
  pub team_index : ℤ
  pub team_num : Option ℤ
  pub name : String
  pub tag : String
  pub tournament_id : Option ℕ
  pub score : Option ℤ
  pub tower_kills : Option ℤ
  pub barracks_kills : Option ℤ

pub record PlayerResource : Type 0 where
  pub slot : ℤ
  pub steam_id64 : ℕ
  pub player_name : String
  pub team : Option ℤ
  pub player_slot : Option ℤ

pub record ParseDone (N : Type 0) : Type 0 where
  pub last_tick : ℕ
  pub last_net_tick : ℕ
  pub game_build : ℕ
  pub message_counts : List (String × ℕ)
  pub combat_total : ℕ
  pub bytes_read : ℤ
  pub elapsed_sec : N
  pub outcome : String

pub record ParseFailed : Type 0 where
  pub error : String

pub record Event (N : Type 0) : Type 0 where
  pub kind : String
  pub seq : ℤ
  pub file_info : Option (FileInfo N)
  pub header : Option Header
  pub engine : Option Engine
  pub game_state : Option (GameState N)
  pub combat : Option (Combat N)
  pub hero_state : Option (HeroState N)
  pub team_state : Option TeamState
  pub player_res : Option PlayerResource
  pub parse_done : Option (ParseDone N)
  pub parse_failed : Option ParseFailed

-- What Next answers until the end of the file: an event, or an error of the scanner or the decoder.
pub data Read (N : Type 0) : Type 0 where
  line : Event N → Read N
  unreadable : Read N

-- A Writer: its sequence number, and the lines given to the buffer.
pub record Writer : Type 0 where
  pub seq : ℤ
  pub lines : List (List ℕ)

-- Write: `encode` is json.Encoder.Encode on the numbered event, with `none` for its error. The
-- Boolean is whether Write returned nil.
abbrev pub written : ℤ → Option (List ℕ) → Writer → Writer × Bool
written seq none w = (record w { seq = seq }, false)
written seq (some l) w = (record { seq = seq; lines = w.lines ++ l ∷ [] }, true)

unfoldable pub write : {N : Type 0} → (Event N → Option (List ℕ)) → Writer → Event N → Writer × Bool
unfolding ◌+ℤ◌
write encode w e = let seq : ℤ = w.seq +ℤ pos 1 in written seq (encode (record e { seq = seq })) w
