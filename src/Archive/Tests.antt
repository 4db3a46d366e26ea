-- ===== src/Archive/Tests.antt =====
-- A manifest of one match through internal/replay/archive/archive.go.
use mathlib.Core.Logic.{◌↔◌}
use dota2_ob.Prelude.{
  ℕ, zero, suc, ◌≡◌, ◌≢◌, refl, true, some, none, List, [], ◌∷◌, map, All, insert, lookup,
}
use dota2_ob.Prelude.Int.{pos, ◌+ℤ◌}
use dota2_ob.Prelude.Keys.{Distinct}
use dota2_ob.Archive.{
  ExpectedTeam, ExpectedPlayer, Match, Manifest, VerifyOptions, Answers, validate, validate_matches,
  match_error, verify, bytes_equal, state_verified, zstd_magic, demo_magic,
}
use dota2_ob.Archive.Listed.{IsListed, id_of, validate_accepts}
use dota2_ob.Archive.Verified.{Passes, verify_iff}

abbrev team : ExpectedTeam
team = record { team_id = "1"; team_name = "t"; side = "radiant" }

abbrev player : ExpectedPlayer
player = record {
  role_record_id = "r";
  account_id = "7";
  player_name = "p";
  match_name = "p";
  team_id = "1";
  team_name = "t";
  side = "radiant";
  expected_hero_id = pos 1;
  nominal_role = "carry";
  role_confidence = "high";
}

abbrev players : ℕ → List ExpectedPlayer
players zero = []
players (suc n) = player ∷ players n

abbrev entry : Match
entry = record {
  category = "c";
  match_id = "42";
  cluster = pos 1;
  replay_salt = pos 1;
  start_time = pos 1;
  public_duration_seconds = pos 1800;
  public_radiant_team = "r";
  public_dire_team = "d";
  public_score = "1-0";
  archive_relative_path = "a";
  archive_bytes = pos 6;
  archive_sha256 = "aa";
  archive_magic_hex = "28b52ffd";
  demo_relative_path = "d";
  demo_bytes = pos 9;
  demo_sha256 = "aa";
  demo_magic = "PBDEMS2";
  expected_teams = team ∷ team ∷ [];
  expected_participants = players 10;
  initial_states = record {
    archive_state = "";
    identity_state = "";
    parse_state = "";
    publication_state = "";
    terminal_state = none;
    reason = "";
  };
}

abbrev manifest : Manifest
manifest = record { schema_version = "v"; issue = "i"; corpus_root = ""; matches = entry ∷ [] }

validate_accepts_example : (validate manifest ≡ none) ↔ (
    (manifest.matches ≢ []) × All IsListed manifest.matches × Distinct (map id_of manifest.matches))
validate_accepts_example = validate_accepts manifest

accepted : validate manifest ≡ none
unfolding validate validate_matches match_error insert lookup
accepted = refl

duplicate : validate (record manifest { matches = entry ∷ entry ∷ [] }) ≢ none
unfolding validate validate_matches match_error insert lookup
duplicate h = cc

abbrev options : VerifyOptions
options = record { write_demo = true; demo_out = "/tmp/demo" }

abbrev answers : Answers
answers = record {
  opened = true;
  size = some (pos 6);
  archive = some (40 ∷ 181 ∷ 47 ∷ 253 ∷ 1 ∷ 2 ∷ []);
  rewound = true;
  head = some zstd_magic;
  rewound_again = true;
  decoder = true;
  demo_head = some demo_magic;
  created = true;
  head_written = true;
  demo_rest = some (5 ∷ []);
}

verify_iff_example :
    ((verify (λ bytes. "aa") entry options answers).state ≡ state_verified)
    ↔ Passes (λ bytes. "aa") entry options answers
verify_iff_example = verify_iff (λ bytes. "aa") entry options answers

verified : (verify (λ bytes. "aa") entry options answers).state ≡ state_verified
unfolding verify bytes_equal ◌+ℤ◌
verified = refl
