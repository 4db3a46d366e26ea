-- ===== src/Identity/Verified.antt =====
-- What an identity with the state `verified` guarantees.
use mathlib.Core.Path.{subst}
use mathlib.Core.Bool.{false≢true, true≢false}
use dota2_ob.Prelude.Guards.{apart, past_guard, past_test}
use dota2_ob.Prelude.{
  ℕ, ◌≤◌, ◌≡◌, refl, sym, ap, ◌∙◌, ◌≢◌, inl, inr, Bool-cases, String, true, false, not, Option,
  none, some, List, [], ◌∷◌, All, ◌==◌, ==_iff, ltb, length, lookup, str_eq, if_else, arith,
}
use dota2_ob.Prelude.Int.{ℤ}
use dota2_ob.Prelude.Decimal.{parse_uint}
use dota2_ob.Archive.{Match}
use dota2_ob.Raw.{FileInfo, TeamState}
use dota2_ob.Raw.Summaries.{Summary}
use dota2_ob.Identity.{
  Identity, TeamGate, build, state_verified, state_failed, started, from_info, gate_match,
  gate_build, bind, with_build, with_bindings, judged, team_gate, team_ids, build_of, check_team,
  check_teams, enough_teams, side_differs, sides_by_id, file_teams, names_by_id,
}
use dota2_ob.Identity.Binding.{AllExpected, build_participants-AllExpected}

-- The manifest knows the team, on the side that the replay gives it.
abbrev pub TeamAgrees : List (String × String) → List (String × String) → String → Type 0
TeamAgrees side_by in_file tid =
    (side : String) × (lookup tid side_by ≡ some side)
    × (side_differs side (lookup tid in_file) ≡ false)

module _ (side_by : List (String × String)) (name_by : List (String × String))
    (in_file : List (String × String)) (entities : List (ℤ × TeamState)) where
  check_team-ok :
      (tid : String) (o : Option String) (g : TeamGate)
      → (check_team side_by name_by in_file entities tid o g).ok ≡ true
      → (g.ok ≡ true)
        × (side : String) × (o ≡ some side)
        × (side_differs side (lookup tid in_file) ≡ false)
  check_team-ok tid none g h = absurd (false≢true h)
  check_team-ok tid (some side) g h = elim (Bool-cases (side_differs side (lookup tid in_file))) [
    | inl differs ↦ absurd (false≢true (ground arith))
    | inr same ↦ (ground arith, side, refl, same)
  ]

  check_teams-agree :
      (tids : List String) (g : TeamGate)
      → (check_teams side_by name_by in_file entities tids g).ok ≡ true
      → (g.ok ≡ true) × All (TeamAgrees side_by in_file) tids
  unfolding check_teams
  check_teams-agree [] g h = (h, tt)
  check_teams-agree (tid ∷ tids) g h =
      let (one, rest) =
        check_teams-agree tids
          (check_team side_by name_by in_file entities tid (lookup tid side_by) g) h in
      let (before, side, known, same) = check_team-ok tid (lookup tid side_by) g one in
      (before, ((side, known, same), rest))

enough_teams-ok : (n : ℕ) (g : TeamGate) → (enough_teams n g).ok ≡ true → (2 ≤ n) × (g.ok ≡ true)
enough_teams-ok n g h = elim (Bool-cases (ltb n 2)) [
  | inl few ↦ absurd (false≢true (ground arith))
  | inr enough ↦ (ground arith, ground arith)
]

-- What the gates of Build establish for a replay with the file info `fi`.
pub record IsVerified {N : Type 0} (hero_id_of : String → Option ℤ) (s : Summary N) (mt : Match)
    (fi : FileInfo N) (id : Identity) : Type 0 where
  pub file_info : s.file_info ≡ some fi
  pub match_id : parse_uint 64 mt.match_id ≡ some fi.match_id
  pub build : (id.game_build ≡ build_of s.parse_done) × (id.game_build ≢ 0)
  pub two_teams : 2 ≤ length (team_ids s fi)
  pub teams : All (TeamAgrees (sides_by_id mt.expected_teams []) (file_teams fi)) (team_ids s fi)
  pub participants : AllExpected hero_id_of mt.expected_participants id.participants

abbrev state_of : Identity → String
state_of id = id.state

abbrev Verifies : Identity → Type 0
Verifies id = state_of id ≡ state_verified

judged-Verifies :
    (id : Identity)
    → id.state ≡ state_failed
    → Verifies (judged id)
    → (id.gate_participants ≡ true)
      × (id.gate_teams ≡ true)
      × ((judged id).participants ≡ id.participants)
      × ((judged id).game_build ≡ id.game_build)
judged-Verifies id e h =
    let n : str_eq id.state state_verified ≡ false = ap (λ s. str_eq s state_verified) e in
    let (players, later) = past_guard state_of state_verified id.gate_participants _ _ n h in
    let (teams, _) = past_guard state_of state_verified id.gate_teams _ _ n later in
    (players, teams, rw (players, teams), rw (players, teams))

module _ {N : Type 0} (hero_id_of : String → Option ℤ) (s : Summary N) (mt : Match) where
  -- What gates 3 and 4 establish.
  abbrev Binds : FileInfo N → ℕ → Identity → Type 0
  Binds fi game_build id =
      (2 ≤ length (team_ids s fi))
      × All (TeamAgrees (sides_by_id mt.expected_teams []) (file_teams fi)) (team_ids s fi)
      × AllExpected hero_id_of mt.expected_participants id.participants
      × (id.game_build ≡ game_build)

  bind-Binds :
      (fi : FileInfo N) (id : Identity)
      → id.state ≡ state_failed
      → Verifies (bind hero_id_of s mt fi id)
      → Binds fi id.game_build (bind hero_id_of s mt fi id)
  unfolding team_gate
  bind-Binds fi id failed h =
      let g : TeamGate = team_gate s fi mt id.mismatches in
      let (players_ok, teams_ok, players, same_build) =
        judged-Verifies (with_bindings hero_id_of s mt fi id) failed h in
      let ids : List String = team_ids s fi in
      let (two, each) = enough_teams-ok (length ids) _ teams_ok in
      let (_, agree) =
        check_teams-agree (sides_by_id mt.expected_teams []) (names_by_id mt.expected_teams [])
          (file_teams fi) s.teams ids _ each in
      (
        two,
        agree,
        subst (AllExpected hero_id_of mt.expected_participants) (sym players)
            (build_participants-AllExpected hero_id_of fi.players mt g.mismatches players_ok),
        same_build,
      )

  gate_build-Binds :
      (fi : FileInfo N) (id : Identity)
      → id.state ≡ state_failed
      → Verifies (gate_build hero_id_of s mt fi id)
      → (build_of s.parse_done ≢ 0)
        × Binds fi (build_of s.parse_done) (gate_build hero_id_of s mt fi id)
  gate_build-Binds fi id failed h =
      let n : str_eq id.state state_verified ≡ false = ap (λ s. str_eq s state_verified) failed in
      let (some_build, later) =
        past_test state_of state_verified (build_of s.parse_done == 0) _ _ n h in
      (
        λ e. true≢false (sym ((==_iff (build_of s.parse_done) 0).1 e) ∙ some_build),
        subst (Binds fi (build_of s.parse_done))
            (sym (if_else (build_of s.parse_done == 0) _ _ some_build))
            (bind-Binds fi (with_build hero_id_of s mt fi id) failed later),
      )

  gate_match-Binds :
      (fi : FileInfo N) (want : Option ℕ) (id : Identity)
      → id.state ≡ state_failed
      → Verifies (gate_match hero_id_of s mt fi want id)
      → (want ≡ some fi.match_id)
        × (build_of s.parse_done ≢ 0)
        × Binds fi (build_of s.parse_done) (gate_match hero_id_of s mt fi want id)
  gate_match-Binds fi none id failed h =
      absurd (apart id.state state_verified (ap (λ s. str_eq s state_verified) failed) h)
  gate_match-Binds fi (some want) id failed h =
      let n : str_eq id.state state_verified ≡ false = ap (λ s. str_eq s state_verified) failed in
      let (same, later) = past_guard state_of state_verified (fi.match_id == want) _ _ n h in
      let (known_build, binds) =
        gate_build-Binds fi (record id { gate_match = fi.match_id == want }) failed later in
      (
        ap some (sym ((==_iff fi.match_id want).0 same)),
        known_build,
        subst (Binds fi (build_of s.parse_done))
            (sym (if_else (not (fi.match_id == want)) _ _ (ap not same))) binds,
      )

  from_info-IsVerified :
      (o : Option (FileInfo N))
      → s.file_info ≡ o
      → Verifies (from_info hero_id_of s mt o (started mt))
      → (fi : FileInfo N) × IsVerified hero_id_of s mt fi (from_info hero_id_of s mt o (started mt))
  from_info-IsVerified none e h = absurd (apart state_failed state_verified refl h)
  from_info-IsVerified (some fi) e h =
      let (same_match, known_build, binds) =
        gate_match-Binds fi (parse_uint 64 mt.match_id) (started mt) refl h in
      let (two, agree, expected, same_build) = binds in
      (
        fi,
        record {
          file_info = e;
          match_id = same_match;
          build = (same_build, λ z. known_build (sym same_build ∙ z));
          two_teams = two;
          teams = agree;
          participants = expected;
        },
      )

-- An identity that Build marks as verified has a file info with the match id of the manifest, a game
-- build, and exactly ten participants with distinct accounts, each of them in the manifest with this
-- account, hero and side; the team ids that Build collects are two or more and all in the manifest
-- on the sides of the replay. An id that the file names for both sides counts as two of them.
pub build-IsVerified :
    {N : Type 0} (hero_id_of : String → Option ℤ) (s : Summary N) (mt : Match)
    → (build hero_id_of s mt).state ≡ state_verified
    → (fi : FileInfo N) × IsVerified hero_id_of s mt fi (build hero_id_of s mt)
unfolding build
build-IsVerified hero_id_of s mt h = from_info-IsVerified hero_id_of s mt s.file_info refl h
