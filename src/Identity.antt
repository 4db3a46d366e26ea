-- ===== src/Identity.antt =====
-- internal/replay/identity/identity.go: the gates between a replay and the manifest. The table of
-- the heroes' ids is a parameter. Mismatches are their kinds with what they name; their texts are not
-- modelled. A Go map is an association list.
pub mod Participants
pub mod Sample
pub mod Expected
pub mod Binding
pub mod Verified
mod Tests
use dota2_ob.Prelude.{
  ℕ, ◌<◌, String, Bool, true, false, not, ◌&&◌, Option, none, some, List, [], ◌∷◌, ◌++◌, ◌==◌, ltb,
  if◌then◌else◌, length, is_empty, is_some, lookup, insert, str_eq,
}
use dota2_ob.Prelude.Int.{ℤ, pos, eqb_ℤ}
use dota2_ob.Prelude.Sort.{sort_strings}
use dota2_ob.Prelude.Decimal.{format_uint, parse_uint}
use dota2_ob.Archive.{Match, ExpectedTeam}
use dota2_ob.Raw.{FileInfo, Header, ParseDone, TeamState}
use dota2_ob.Raw.Summaries.{Summary}
use dota2_ob.Identity.Participants.{
  Mismatch, Participant, Bound, build_participants, not_a_number, other_match, unknown_team,
  other_team_side, too_few_teams,
}

abbrev pub state_verified : String
state_verified = "verified"

abbrev pub state_failed : String
state_failed = "fail_closed"

pub record Team : Type 0 where
  pub team_id : String
  pub team_name : String
  pub tag : String
  pub side : String
  pub tournament_id : Option ℕ

pub record Identity : Type 0 where
  pub schema_version : String
  pub match_id : String
  pub state : String
  pub reason : String
  pub game_build : ℕ
  pub game_mode : ℤ
  pub game_winner : ℤ
  pub league_id : ℕ
  pub header_server : String
  pub teams : List Team
  pub participants : List Participant
  pub gate_match : Bool
  pub gate_build : Bool
  pub gate_teams : Bool
  pub gate_participants : Bool
  pub mismatches : List Mismatch
  pub missing : List String

unfoldable pub contains : List String → String → Bool
contains [] s = false
contains (x ∷ xs) s = let rest = contains xs s in if str_eq x s then true else rest

-- The maps from a manifest's team ids to their sides and names.
unfoldable pub sides_by_id : List ExpectedTeam → List (String × String) → List (String × String)
sides_by_id [] m = m
sides_by_id (et ∷ ets) m = sides_by_id ets (insert et.team_id et.side m)

unfoldable pub names_by_id : List ExpectedTeam → List (String × String) → List (String × String)
names_by_id [] m = m
names_by_id (et ∷ ets) m = names_by_id ets (insert et.team_id et.team_name m)

abbrev pub or_empty : Option String → String
or_empty none = ""
or_empty (some s) = s

-- The side of a team that the file info names, if it names one.
abbrev pub add_side : String → ℕ → List (String × String) → List (String × String)
add_side side id m = if id == 0 then m else insert (format_uint id) side m

unfoldable pub file_teams : {N : Type 0} → FileInfo N → List (String × String)
unfolding format_uint insert
file_teams fi = add_side "dire" fi.dire_team_id (add_side "radiant" fi.radiant_team_id [])

abbrev pub add_id : ℕ → List String → List String
add_id id ids = if id == 0 then ids else ids ++ format_uint id ∷ []

unfoldable pub file_ids : {N : Type 0} → FileInfo N → List String
unfolding format_uint
file_ids fi = add_id fi.dire_team_id (add_id fi.radiant_team_id [])

abbrev pub tournament_of : Option ℕ → Option String
tournament_of none = none
tournament_of (some id) = if id == 0 then none else some (format_uint id)

-- An id of an entity that is not yet in the list is appended to it.
abbrev pub join_id : Option String → List String → List String
join_id none ids = ids
join_id (some id) ids = if contains ids id then ids else ids ++ id ∷ []

unfoldable pub join_entities : List (ℤ × TeamState) → List String → List String
unfolding contains format_uint
join_entities [] ids = ids
join_entities ((k, ts) ∷ more) ids =
    join_entities more (join_id (tournament_of ts.tournament_id) ids)

abbrev pub is_team : String → Option ℕ → Bool
is_team tid none = false
is_team tid (some id) = str_eq (format_uint id) tid

-- teamNumForID
unfoldable pub team_num_for_id : String → List (ℤ × TeamState) → ℤ
team_num_for_id tid [] = pos 0
team_num_for_id tid ((k, ts) ∷ more) =
    let rest = team_num_for_id tid more in if is_team tid ts.tournament_id then k else rest

-- teamTag
unfoldable pub team_tag : String → List (ℤ × TeamState) → String
team_tag tid [] = ""
team_tag tid ((k, ts) ∷ more) =
    let rest = team_tag tid more in if is_team tid ts.tournament_id then ts.tag else rest

unfoldable pub team_at : ℤ → List (ℤ × TeamState) → Option TeamState
team_at k [] = none
team_at k ((j, ts) ∷ more) = let rest = team_at k more in if eqb_ℤ j k then some ts else rest

-- The name to display: that of the entity, unless it has none of its own.
abbrev pub display_name : Option TeamState → String → String
display_name none name = name
display_name (some ts) name =
    if not (str_eq ts.name "")
      && not (str_eq ts.name "Unassigned")
      && not (str_eq ts.name "Spectator")
    then ts.name
    else name

abbrev pub side_differs : String → Option String → Bool
side_differs side none = false
side_differs side (some fs) = not (str_eq fs side)

-- The loop over the team ids: the gate so far, the mismatches and the teams.
pub record TeamGate : Type 0 where
  pub ok : Bool
  pub mismatches : List Mismatch
  pub teams : List Team

module _ (side_by : List (String × String)) (name_by : List (String × String))
    (in_file : List (String × String)) (entities : List (ℤ × TeamState)) where
  abbrev pub bound_team : String → String → Team
  bound_team tid side = record {
    team_id = tid;
    team_name =
        display_name (team_at (team_num_for_id tid entities) entities)
          (or_empty (lookup tid name_by));
    tag = team_tag tid entities;
    side = side;
    tournament_id = parse_uint 32 tid;
  }

  abbrev pub check_team : String → Option String → TeamGate → TeamGate
  check_team tid none g = record g {
    ok = false;
    mismatches = g.mismatches ++ unknown_team tid ∷ [];
  }
  check_team tid (some side) g =
      let g' : TeamGate =
        if side_differs side (lookup tid in_file)
        then record g { ok = false; mismatches = g.mismatches ++ other_team_side tid ∷ [] }
        else g in
      record g' { teams = g'.teams ++ bound_team tid side ∷ [] }

  unfoldable pub check_teams : List String → TeamGate → TeamGate
  unfolding lookup team_at team_num_for_id team_tag parse_uint
  check_teams [] g = g
  check_teams (tid ∷ tids) g = check_teams tids (check_team tid (lookup tid side_by) g)

abbrev pub enough_teams : ℕ → TeamGate → TeamGate
enough_teams n g =
    if ltb n 2
    then record g { ok = false; mismatches = g.mismatches ++ too_few_teams n ∷ [] }
    else g

-- Gate 3.
abbrev pub team_ids : {N : Type 0} → Summary N → FileInfo N → List String
team_ids s fi = sort_strings (join_entities s.teams (file_ids fi))

unfoldable pub team_gate : {N : Type 0} → Summary N → FileInfo N → Match → List Mismatch → TeamGate
unfolding check_teams sides_by_id names_by_id file_teams file_ids join_entities sort_strings insert
    format_uint
team_gate s fi mt before =
    let ids : List String = team_ids s fi in
    enough_teams (length ids) (
      check_teams (sides_by_id mt.expected_teams []) (names_by_id mt.expected_teams [])
        (file_teams fi) s.teams ids (record { ok = true; mismatches = before; teams = [] }))

abbrev pub started : Match → Identity
started mt = record {
  schema_version = "replay.identity.v1";
  match_id = mt.match_id;
  state = state_failed;
  reason = "identity_gate_pending";
  game_build = 0;
  game_mode = pos 0;
  game_winner = pos 0;
  league_id = 0;
  header_server = "";
  teams = [];
  participants = [];
  gate_match = false;
  gate_build = false;
  gate_teams = false;
  gate_participants = false;
  mismatches = [];
  missing = [];
}

abbrev pub server_of : Option Header → String
server_of none = ""
server_of (some h) = h.server_name

abbrev pub build_of : {N : Type 0} → Option (ParseDone N) → ℕ
build_of none = 0
build_of (some d) = d.game_build

abbrev pub judged : Identity → Identity
judged id =
    if not id.gate_participants
    then record id { reason = "participant_binding_mismatch" }
    else if not id.gate_teams
    then record id { reason = "team_binding_mismatch" }
    else record id { state = state_verified; reason = "all_identity_gates_pass" }

module _ {N : Type 0} (hero_id_of : String → Option ℤ) (s : Summary N) (mt : Match) where
  -- Gates 3 and 4, from the mismatches of the teams on.
  abbrev pub with_bindings : FileInfo N → Identity → Identity
  with_bindings fi id =
      let g : TeamGate = team_gate s fi mt id.mismatches in
      let b : Bound = build_participants hero_id_of fi.players mt g.mismatches in
      record id {
        teams = g.teams;
        gate_teams = g.ok;
        gate_participants = b.ok;
        participants = b.participants;
        mismatches = b.mismatches;
      }

  abbrev pub bind : FileInfo N → Identity → Identity
  bind fi id = judged (with_bindings fi id)

  abbrev pub with_build : FileInfo N → Identity → Identity
  with_build fi id = record id {
    game_build = build_of s.parse_done;
    gate_build = true;
    missing = if is_some s.engine then id.missing else id.missing ++ "engine_info" ∷ [];
    game_mode = fi.game_mode;
    game_winner = fi.game_winner;
    league_id = fi.league_id;
    header_server = server_of s.header;
  }

  -- Gate 2 and the plain fields.
  abbrev pub gate_build : FileInfo N → Identity → Identity
  gate_build fi id =
      if build_of s.parse_done == 0
      then record id { missing = id.missing ++ "game_build" ∷ []; reason = "build_missing" }
      else bind fi (with_build fi id)

  -- Gate 1.
  abbrev pub gate_match : FileInfo N → Option ℕ → Identity → Identity
  gate_match fi none id = record id {
    mismatches = id.mismatches ++ not_a_number ∷ [];
    reason = "manifest_match_id_unparseable";
  }
  gate_match fi (some want) id =
      let id' : Identity = record id { gate_match = fi.match_id == want } in
      if not id'.gate_match
      then record id' {
        mismatches = id'.mismatches ++ other_match fi.match_id want ∷ [];
        reason = "match_id_mismatch";
      }
      else gate_build fi id'

  abbrev pub from_info : Option (FileInfo N) → Identity → Identity
  from_info none id = record id { reason = "file_info_missing" }
  from_info (some fi) id = gate_match fi (parse_uint 64 mt.match_id) id

  -- Build
  unfoldable pub build : Identity
  unfolding team_gate build_participants parse_uint
  build = from_info s.file_info (started mt)
