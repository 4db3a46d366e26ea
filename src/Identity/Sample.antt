-- ===== src/Identity/Sample.antt =====
-- A replay of ten players and a manifest that expects them.
use dota2_ob.Prelude.{
  ℕ, zero, suc, ◌+◌, String, false, Option, none, some, List, [], ◌∷◌, ltb, if◌then◌else◌,
}
use dota2_ob.Prelude.Int.{ℤ, pos}
use dota2_ob.Archive.{Match, ExpectedPlayer}
use dota2_ob.Raw.{FileInfo, PlayerInfo, ParseDone}
use dota2_ob.Raw.Summaries.{Summary}

abbrev heroes : String
heroes = "abcdefghij"

abbrev pub hero_name : ℕ → String
hero_name n = Prim.Native.String.slice heroes n (n + 1)

abbrev pub account : ℕ → String
account n = Prim.Native.String.slice "0123456789" n (n + 1)

abbrev team_of : ℕ → ℕ
team_of n = if ltb n 5 then 2 else 3

abbrev side_of : ℕ → String
side_of n = if ltb n 5 then "radiant" else "dire"

abbrev player : ℕ → PlayerInfo
player n = record {
  hero_name = hero_name n;
  player_name = account n;
  is_fake_client = false;
  steam_id = 76561197960265728 + n;
  game_team = pos (team_of n);
}

abbrev players : ℕ → ℕ → List PlayerInfo
players zero i = []
players (suc n) i = player i ∷ players n (i + 1)

abbrev expected : ℕ → ExpectedPlayer
expected n = record {
  role_record_id = "r";
  account_id = account n;
  player_name = account n;
  match_name = account n;
  team_id = "1";
  team_name = "t";
  side = side_of n;
  expected_hero_id = pos 1;
  nominal_role = "carry";
  role_confidence = "high";
}

abbrev all_expected : ℕ → ℕ → List ExpectedPlayer
all_expected zero i = []
all_expected (suc n) i = expected i ∷ all_expected n (i + 1)

abbrev pub hero_id_of : String → Option ℤ
hero_id_of name = some (pos 1)

abbrev pub sample_match : Match
sample_match = record {
  category = "c";
  match_id = "42";
  cluster = pos 1;
  replay_salt = pos 1;
  start_time = pos 1;
  public_duration_seconds = pos 1800;
  public_radiant_team = "r";
  public_dire_team = "d";
  public_score = "1-0";
  archive_relative_path = "a";
  archive_bytes = pos 6;
  archive_sha256 = "aa";
  archive_magic_hex = "28b52ffd";
  demo_relative_path = "d";
  demo_bytes = pos 9;
  demo_sha256 = "aa";
  demo_magic = "PBDEMS2";
  expected_teams =
      record { team_id = "1"; team_name = "r"; side = "radiant" }
      ∷ record { team_id = "2"; team_name = "d"; side = "dire" }
      ∷ [];
  expected_participants = all_expected 10 0;
  initial_states = record {
    archive_state = "";
    identity_state = "";
    parse_state = "";
    publication_state = "";
    terminal_state = none;
    reason = "";
  };
}

abbrev pub file_info : FileInfo ℤ
file_info = record {
  match_id = 42;
  game_mode = pos 2;
  game_winner = pos 2;
  league_id = 1;
  radiant_team_id = 1;
  dire_team_id = 2;
  radiant_tag = "R";
  dire_tag = "D";
  end_time = 9000;
  playback_ticks = pos 60000;
  playback_time = pos 2000;
  players = players 10 0;
  picks_bans = pos 24;
}

abbrev parse_done : ParseDone ℤ
parse_done = record {
  last_tick = 60000;
  last_net_tick = 60000;
  game_build = 6600;
  message_counts = [];
  combat_total = 0;
  bytes_read = pos 100;
  elapsed_sec = pos 1;
  outcome = "ok";
}

abbrev pub sample_summary : Summary ℤ
sample_summary = record {
  file_info = some file_info;
  engine = none;
  header = none;
  teams = [];
  player_res = [];
  transitions = [];
  parse_done = some parse_done;
  parse_failed = none;
  combat_total = 0;
  max_combat_ts = pos 0;
  last_tick = 60000;
  last_net_tick = 60000;
  hero_snapshots = 0;
  combat_events = 0;
  game_states = 0;
}
