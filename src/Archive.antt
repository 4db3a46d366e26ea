-- ===== src/Archive.antt =====
-- internal/replay/archive/archive.go: the manifest of the replays, and the check of an archive's
-- content. Files, the zstd decoder and SHA-256 in hexadecimal are parameters: `Answers` has what each
-- call of them gave.
pub mod Listed
pub mod Verified
mod Tests
use dota2_ob.Prelude.{
  ℕ, suc, ◌+◌, String, Bool, true, false, not, ◌&&◌, ◌||◌, Option, none, some, List, [], ◌∷◌, ◌++◌,
  ◌==◌, if◌then◌else◌, length, is_empty, lookup, insert, str_eq,
}
use dota2_ob.Prelude.Int.{ℤ, pos, ◌+ℤ◌, eqb_ℤ}
use dota2_ob.Prelude.Keys.{was_seen}

abbrev pub state_missing : String
state_missing = "missing"

abbrev pub state_corrupt : String
state_corrupt = "corrupt"

abbrev pub state_verified : String
state_verified = "verified"

abbrev pub state_parse_failed : String
state_parse_failed = "parse_failed"

abbrev pub state_quarantined : String
state_quarantined = "quarantined"

unfoldable pub terminal : String → Bool
terminal s =
    str_eq s state_missing
    || str_eq s state_corrupt
    || str_eq s state_verified
    || str_eq s state_parse_failed
    || str_eq s state_quarantined

pub record ExpectedTeam : Type 0 where
  pub team_id : String
  pub team_name : String
  pub side : String

pub record ExpectedPlayer : Type 0 where
  pub role_record_id : String
  pub account_id : String
  pub player_name : String
  pub match_name : String
  pub team_id : String
  pub team_name : String
  pub side : String
  pub expected_hero_id : ℤ
  pub nominal_role : String
  pub role_confidence : String

pub record InitialStates : Type 0 where
  pub archive_state : String
  pub identity_state : String
  pub parse_state : String
  pub publication_state : String
  pub terminal_state : Option String
  pub reason : String

pub record Match : Type 0 where
  pub category : String
  pub match_id : String
  pub cluster : ℤ
  pub replay_salt : ℤ
  pub start_time : ℤ
  pub public_duration_seconds : ℤ
  pub public_radiant_team : String
  pub public_dire_team : String
  pub public_score : String
  pub archive_relative_path : String
  pub archive_bytes : ℤ
  pub archive_sha256 : String
  pub archive_magic_hex : String
  pub demo_relative_path : String
  pub demo_bytes : ℤ
  pub demo_sha256 : String
  pub demo_magic : String
  pub expected_teams : List ExpectedTeam
  pub expected_participants : List ExpectedPlayer
  pub initial_states : InitialStates

pub record Manifest : Type 0 where
  pub schema_version : String
  pub issue : String
  pub corpus_root : String
  pub matches : List Match

pub data ManifestError : Type 0 where
  no_matches : ManifestError
  empty_id : ℕ → ManifestError
  duplicate_match missing_hashes : String → ManifestError
  wrong_teams wrong_participants : String → ℕ → ManifestError

-- What the loop of Validate says of one entry; `seen` is whether its id came before.
unfoldable pub match_error : ℕ → Bool → Match → Option ManifestError
match_error i seen mt =
    if str_eq mt.match_id ""
    then some (empty_id i)
    else if seen
    then some (duplicate_match mt.match_id)
    else if not (length mt.expected_teams == 2)
    then some (wrong_teams mt.match_id (length mt.expected_teams))
    else if not (length mt.expected_participants == 10)
    then some (wrong_participants mt.match_id (length mt.expected_participants))
    else if str_eq mt.archive_sha256 "" || str_eq mt.demo_sha256 ""
    then some (missing_hashes mt.match_id)
    else none

abbrev pub first_error : Option ManifestError → Option ManifestError → Option ManifestError
first_error none rest = rest
first_error (some e) rest = some e

unfoldable pub validate_matches : ℕ → List (String × Bool) → List Match → Option ManifestError
unfolding match_error
validate_matches i seen [] = none
validate_matches i seen (mt ∷ ms) =
    let rest = validate_matches (suc i) (insert mt.match_id true seen) ms in
    first_error (match_error i (was_seen (lookup mt.match_id seen)) mt) rest

-- Validate: `none` is no error.
unfoldable pub validate : Manifest → Option ManifestError
unfolding validate_matches
validate m = if is_empty m.matches then some no_matches else validate_matches 0 [] m.matches

-- Find
unfoldable pub find_match : String → List Match → Option Match
find_match id [] = none
find_match id (mt ∷ ms) =
    let later = find_match id ms in if str_eq mt.match_id id then some mt else later

pub record Verification : Type 0 where
  pub schema_version : String
  pub match_id : String
  pub archive_relative_path : String
  pub demo_relative_path : String
  pub archive_bytes_expected : ℤ
  pub archive_bytes_actual : ℤ
  pub archive_sha256_expected : String
  pub archive_sha256_actual : String
  pub archive_magic_ok : Bool
  pub demo_bytes_expected : ℤ
  pub demo_bytes_actual : ℤ
  pub demo_sha256_expected : String
  pub demo_sha256_actual : String
  pub demo_magic_ok : Bool
  pub state : String
  pub reason : String
  pub checked_at : String
  pub parser_name : String
  pub parser_version : String
  pub adapter_version : String

pub record VerifyOptions : Type 0 where
  pub write_demo : Bool
  pub demo_out : String

-- What the file system and the decoder answer, in the order of the calls; `none` is an error.
pub record Answers : Type 0 where
  pub opened : Bool
  pub size : Option ℤ
  pub archive : Option (List ℕ)
  pub rewound : Bool
  pub head : Option (List ℕ)
  pub rewound_again : Bool
  pub decoder : Bool
  pub demo_head : Option (List ℕ)
  pub created : Bool
  pub head_written : Bool
  pub demo_rest : Option (List ℕ)

abbrev pub zstd_magic : List ℕ
zstd_magic = 40 ∷ 181 ∷ 47 ∷ 253 ∷ []

-- PBDEMS2 and a zero byte
abbrev pub demo_magic : List ℕ
demo_magic = 80 ∷ 66 ∷ 68 ∷ 69 ∷ 77 ∷ 83 ∷ 50 ∷ 0 ∷ []

-- bytes.Equal
unfoldable pub bytes_equal : List ℕ → List ℕ → Bool
bytes_equal [] [] = true
bytes_equal [] (y ∷ ys) = false
bytes_equal (x ∷ xs) [] = false
bytes_equal (x ∷ xs) (y ∷ ys) = x == y && bytes_equal xs ys

abbrev pub started : Match → Verification
started mt = record {
  schema_version = "replay.identity.v1";
  match_id = mt.match_id;
  archive_relative_path = mt.archive_relative_path;
  demo_relative_path = mt.demo_relative_path;
  archive_bytes_expected = mt.archive_bytes;
  archive_bytes_actual = pos 0;
  archive_sha256_expected = mt.archive_sha256;
  archive_sha256_actual = "";
  archive_magic_ok = false;
  demo_bytes_expected = mt.demo_bytes;
  demo_bytes_actual = pos 0;
  demo_sha256_expected = mt.demo_sha256;
  demo_sha256_actual = "";
  demo_magic_ok = false;
  state = "";
  reason = "";
  checked_at = "";
  parser_name = "dotabuff/manta";
  parser_version = "v1.5.0";
  adapter_version = "stage3.v1";
}

abbrev pub ended : String → String → Verification → Verification
ended state reason v = record v { state = state; reason = reason }

abbrev pub corrupt : String → Verification → Verification
corrupt reason v = ended state_corrupt reason v

-- The steps of Verify, the last one first.
module _ (sha256_hex : List ℕ → String) (mt : Match) (opts : VerifyOptions) (a : Answers) where
  abbrev pub check_rest : List ℕ → Option (List ℕ) → Verification → Verification
  check_rest magic none v = corrupt "decompress_failed" v
  check_rest magic (some rest) v =
      let v' : Verification = record v {
        demo_bytes_actual = pos (length rest) +ℤ pos (length magic);
      } in
      let v'' : Verification = record v' { demo_sha256_actual = sha256_hex (magic ++ rest) } in
      if not (eqb_ℤ v'.demo_bytes_actual mt.demo_bytes)
      then corrupt "demo_size_mismatch" v'
      else if not (str_eq v''.demo_sha256_actual mt.demo_sha256)
      then corrupt "demo_sha256_mismatch" v''
      else ended state_verified "identity_and_container_gates_pass" v''

  abbrev pub open_output : List ℕ → Verification → Verification
  open_output magic v =
      if opts.write_demo && not a.created
      then corrupt "demo_write_open_failed" v
      else if opts.write_demo && not a.head_written
      then corrupt "demo_write_failed" v
      else check_rest magic a.demo_rest v

  abbrev pub check_demo_magic : Option (List ℕ) → Verification → Verification
  check_demo_magic none v = corrupt "demo_magic_unreadable" v
  check_demo_magic (some magic) v =
      let v' : Verification = record v { demo_magic_ok = bytes_equal magic demo_magic } in
      if not v'.demo_magic_ok then corrupt "demo_magic_mismatch" v' else open_output magic v'

  abbrev pub decode : Verification → Verification
  decode v =
      if not a.rewound_again
      then corrupt "archive_seek_failed" v
      else if not a.decoder
      then corrupt "zstd_init_failed" v
      else check_demo_magic a.demo_head v

  abbrev pub check_magic : Option (List ℕ) → Verification → Verification
  check_magic none v = corrupt "archive_magic_unreadable" v
  check_magic (some magic) v =
      let v' : Verification = record v { archive_magic_ok = bytes_equal magic zstd_magic } in
      if not v'.archive_magic_ok then corrupt "archive_magic_mismatch" v' else decode v'

  abbrev pub check_hash : Option (List ℕ) → Verification → Verification
  check_hash none v = corrupt "archive_read_failed" v
  check_hash (some bytes) v =
      let v' : Verification = record v { archive_sha256_actual = sha256_hex bytes } in
      if not (str_eq v'.archive_sha256_actual mt.archive_sha256)
      then corrupt "archive_sha256_mismatch" v'
      else if not a.rewound
      then corrupt "archive_seek_failed" v'
      else check_magic a.head v'

  abbrev pub check_size : Option ℤ → Verification → Verification
  check_size none v = ended state_missing "archive_stat_failed" v
  check_size (some size) v =
      let v' : Verification = record v { archive_bytes_actual = size } in
      if not (eqb_ℤ size mt.archive_bytes)
      then corrupt "archive_size_mismatch" v'
      else check_hash a.archive v'

  -- Verify
  unfoldable pub verify : Verification
  unfolding bytes_equal ◌+ℤ◌
  verify =
      if not a.opened
      then ended state_missing "archive_missing" (started mt)
      else check_size a.size (started mt)
