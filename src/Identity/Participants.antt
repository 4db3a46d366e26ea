-- ===== src/Identity/Participants.antt =====
-- buildParticipants of internal/replay/identity/identity.go: the ten players against the manifest.
use dota2_ob.Prelude.{
  ℕ, suc, ◌+◌, ◌-◌, ◌%◌, String, Bool, true, false, not, Option, none, some, List, [], ◌∷◌, ◌++◌,
  ◌==◌, if◌then◌else◌, length, lookup, insert, str_eq,
}
use dota2_ob.Prelude.Int.{ℤ, pos, eqb_ℤ}
use dota2_ob.Prelude.Time.{u64_mod}
use dota2_ob.Prelude.Decimal.{format_uint}
use dota2_ob.Archive.{Match, ExpectedPlayer}
use dota2_ob.Prelude.Keys.{was_seen}
use dota2_ob.Raw.{PlayerInfo}

pub data Mismatch : Type 0 where
  not_a_number : Mismatch
  other_match : ℕ → ℕ → Mismatch
  unknown_team other_team_side : String → Mismatch
  too_few_teams player_count fake_client unique_count : ℕ → Mismatch
  duplicate_account unknown_account unknown_hero other_hero other_side : String → Mismatch

pub record Participant : Type 0 where
  pub slot : ℤ
  pub account_id : String
  pub steam_id64 : ℕ
  pub player_name : String
  pub hero_name : String
  pub hero_id : ℤ
  pub team : ℤ
  pub side : String

abbrev pub steam_id64_offset : ℕ
steam_id64_offset = 76561197960265728

-- SteamID - SteamID64Offset, as a uint64, in decimal
unfoldable pub account_of : ℕ → String
unfolding format_uint
account_of steam_id = format_uint ((steam_id + u64_mod - steam_id64_offset) % u64_mod)

-- sideName
unfoldable pub side_name : ℤ → String
side_name team =
    if eqb_ℤ team (pos 2)
    then "radiant"
    else if eqb_ℤ team (pos 3)
    then "dire"
    else if eqb_ℤ team (pos 0)
    then "none"
    else "spectator"

unfoldable pub expected_by_account :
    List ExpectedPlayer → List (String × ExpectedPlayer) → List (String × ExpectedPlayer)
expected_by_account [] m = m
expected_by_account (p ∷ ps) m = expected_by_account ps (insert p.account_id p m)

-- The state of the loop over the players.
pub record Bound : Type 0 where
  pub ok : Bool
  pub seen : List (String × Bool)
  pub participants : List Participant
  pub mismatches : List Mismatch

abbrev pub fail : Mismatch → Bound → Bound
fail m b = record b { ok = false; mismatches = b.mismatches ++ m ∷ [] }

abbrev pub or_zero : Option ℤ → ℤ
or_zero none = pos 0
or_zero (some n) = n

abbrev pub participant : ℕ → PlayerInfo → Option ℤ → Participant
participant i pi hero = record {
  slot = pos i;
  account_id = account_of pi.steam_id;
  steam_id64 = pi.steam_id;
  player_name = pi.player_name;
  hero_name = pi.hero_name;
  hero_id = or_zero hero;
  team = pi.game_team;
  side = side_name pi.game_team;
}

-- What the manifest says of a participant.
abbrev pub compare_expected : Participant → Option ℤ → Option ExpectedPlayer → Bound → Bound
compare_expected p hero none b = fail (unknown_account p.account_id) b
compare_expected p none (some e) b = fail (unknown_hero p.account_id) b
compare_expected p (some hero) (some e) b =
    if not (eqb_ℤ hero e.expected_hero_id)
    then fail (other_hero p.account_id) b
    else if not (str_eq p.side e.side)
    then fail (other_side p.account_id) b
    else b

module _ (hero_id_of : String → Option ℤ) (expected : List (String × ExpectedPlayer)) where
  abbrev pub note_account : String → Bound → Bound
  note_account account b =
      let b' : Bound =
        if was_seen (lookup account b.seen) then fail (duplicate_account account) b else b in
      record b' { seen = insert account true b'.seen }

  unfoldable pub bind_player : ℕ → PlayerInfo → Bound → Bound
  unfolding account_of side_name insert lookup
  bind_player i pi b =
      let p : Participant = participant i pi (hero_id_of pi.hero_name) in
      let b' : Bound = note_account p.account_id b in
      let b'' : Bound = record b' { participants = b'.participants ++ p ∷ [] } in
      if pi.is_fake_client
      then fail (fake_client i) b
      else compare_expected p (hero_id_of pi.hero_name) (lookup p.account_id expected) b''

  unfoldable pub bind_players : ℕ → List PlayerInfo → Bound → Bound
  unfolding bind_player
  bind_players i [] b = b
  bind_players i (pi ∷ pis) b = bind_players (suc i) pis (bind_player i pi b)

abbrev pub all_unique : Bound → Bound
all_unique b = if length b.seen == 10 then b else fail (unique_count (length b.seen)) b

-- buildParticipants, after the mismatches `before`
unfoldable pub build_participants :
    (String → Option ℤ) → List PlayerInfo → Match → List Mismatch → Bound
unfolding bind_players expected_by_account
build_participants hero_id_of players mt before =
    let b : Bound = record { ok = true; seen = []; participants = []; mismatches = before } in
    if not (length players == 10)
    then fail (player_count (length players)) b
    else all_unique
        (bind_players hero_id_of (expected_by_account mt.expected_participants []) 0 players b)
