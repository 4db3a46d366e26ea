-- ===== src/Identity/Binding.antt =====
-- What the loop over the players accepts.
use mathlib.Core.Path.{subst}
use mathlib.Core.Bool.{false≢true}
use mathlib.Core.List.{Memᴰ}
use dota2_ob.Prelude.{
  ℕ, suc, ◌≡◌, refl, sym, ap, ◌∙◌, inl, inr, Bool-cases, String, Bool, true, false, not, Option,
  none, some, List, [], ◌∷◌, ◌++◌, append-nil, append_assoc, map, All, ◌==◌, ==_iff, length, lookup,
  insert, str_eq, eq_iff, if◌then◌else◌, if_first, if_else, arith,
}
use dota2_ob.Prelude.Int.{ℤ, eqb_ℤ, eq_of_parts}
use dota2_ob.Prelude.Keys.{was_seen, Distinct, Unseen, Unseen-insert}
use dota2_ob.Archive.{Match, ExpectedPlayer}
use dota2_ob.Raw.{PlayerInfo}
use dota2_ob.Identity.Participants.{
  Mismatch, Participant, Bound, or_zero, participant, account_of, expected_by_account,
  compare_expected, fail, bind_player, bind_players, build_participants, all_unique, player_count,
}
use dota2_ob.Identity.Expected.{expected_by_account_sound}

pub account_id_of : Participant → String
account_id_of p = p.account_id

-- A participant that the manifest expects: with this account, hero and side.
pub record IsExpected (hero_id_of : String → Option ℤ) (players : List ExpectedPlayer)
    (p : Participant) : Type 0 where
  pub entry : ExpectedPlayer
  pub listed : Memᴰ entry players
  pub account : entry.account_id ≡ p.account_id
  pub known_hero : hero_id_of p.hero_name ≡ some p.hero_id
  pub hero : entry.expected_hero_id ≡ p.hero_id
  pub side : entry.side ≡ p.side

failed : (m : Mismatch) (b : Bound) → (fail m b).ok ≡ true → ⊥
failed m b h = false≢true h

compare_expected-ok :
    (p : Participant) (hero : Option ℤ) (e : Option ExpectedPlayer) (b : Bound)
    → (compare_expected p hero e b).ok ≡ true
    → (n : ℤ) × (x : ExpectedPlayer) × (hero ≡ some n)
      × (e ≡ some x)
      × (n ≡ x.expected_hero_id)
      × (p.side ≡ x.side)
      × (compare_expected p hero e b ≡ b)
compare_expected-ok p none none b h = absurd (false≢true h)
compare_expected-ok p (some n) none b h = absurd (false≢true h)
compare_expected-ok p none (some x) b h = absurd (false≢true h)
compare_expected-ok p (some n) (some x) b h = elim (Bool-cases (eqb_ℤ n x.expected_hero_id)) [
  | inl same ↦ elim (Bool-cases (str_eq p.side x.side)) [
    | inl side ↦ (
      n,
      x,
      refl,
      refl,
      eq_of_parts n x.expected_hero_id ((==_iff _ _).0 same),
      (eq_iff p.side x.side).0 side,
      rw (same, side),
    )
    | inr side ↦ absurd (false≢true (ground arith))
  ]
  | inr other ↦ absurd (false≢true (ground arith))
]

module _ (hero_id_of : String → Option ℤ) (players : List ExpectedPlayer) where
  abbrev bound_as : ℕ → PlayerInfo → Participant
  bound_as i pi = participant i pi (hero_id_of pi.hero_name)

  abbrev noted : ℕ → PlayerInfo → Bound → Bound
  noted i pi b = record b {
    seen = insert (account_of pi.steam_id) true b.seen;
    participants = b.participants ++ bound_as i pi ∷ [];
  }

  abbrev by_account : List (String × ExpectedPlayer)
  by_account = expected_by_account players []

  -- A player is bound without a mismatch.
  record IsBound (i : ℕ) (pi : PlayerInfo) (b : Bound) : Type 0 where
    before : b.ok ≡ true
    new : was_seen (lookup (account_of pi.steam_id) b.seen) ≡ false
    expected : IsExpected hero_id_of players (bound_as i pi)
    state : bind_player hero_id_of by_account i pi b ≡ noted i pi b

  noted_after : Bool → ℕ → PlayerInfo → Bound → Bound
  noted_after seen i pi b =
      let b' : Bound =
        if seen then fail (Mismatch.duplicate_account (account_of pi.steam_id)) b else b in
      let b'' : Bound = record b' { seen = insert (account_of pi.steam_id) true b'.seen } in
      record b'' { participants = b''.participants ++ bound_as i pi ∷ [] }

  noted_after-ok :
      (seen : Bool) (i : ℕ) (pi : PlayerInfo) (b : Bound)
      → (noted_after seen i pi b).ok ≡ true
      → (seen ≡ false) × (b.ok ≡ true) × (noted_after seen i pi b ≡ noted i pi b)
  unfolding noted_after
  noted_after-ok true i pi b h = absurd (false≢true h)
  noted_after-ok false i pi b h = (refl, h, refl)

  real_player :
      (fake : Bool) (x y : Bound)
      → x.ok ≡ false
      → (if fake then x else y).ok ≡ true
      → (fake ≡ false) × (y.ok ≡ true)
  real_player true x y n h = absurd (false≢true (sym n ∙ h))
  real_player false x y n h = (refl, h)

  bind_player-IsBound :
      (i : ℕ) (pi : PlayerInfo) (b : Bound)
      → (bind_player hero_id_of by_account i pi b).ok ≡ true
      → IsBound i pi b
  unfolding bind_player noted_after account_of
  bind_player-IsBound i pi b h =
      let p : Participant = bound_as i pi in
      let seen : Bool = was_seen (lookup p.account_id b.seen) in
      let after : Bound = noted_after seen i pi b in
      let hero : Option ℤ = hero_id_of pi.hero_name in
      let (real, compared) = real_player pi.is_fake_client _ _ refl h in
      let (n, e, known, found, same, side, kept) =
        compare_expected-ok p hero (lookup p.account_id by_account) after compared in
      let (new, before, noted) =
        noted_after-ok seen i pi b (sym (ap (λ (x : Bound). x.ok) kept) ∙ compared) in
      let (listed, account) = expected_by_account_sound p.account_id e players found in
      record {
        before = before;
        new = new;
        expected = record {
          entry = e;
          listed = listed;
          account = account;
          known_hero = known ∙ ap some (sym (ap or_zero known));
          hero = sym same ∙ sym (ap or_zero known);
          side = sym side;
        };
        state = if_else pi.is_fake_client _ _ real ∙ kept ∙ noted;
      }

  bound_from : ℕ → List PlayerInfo → List Participant
  bound_from i [] = []
  bound_from i (pi ∷ pis) = bound_as i pi ∷ bound_from (suc i) pis

  abbrev ids_of : List Participant → List String
  ids_of ps = map account_id_of ps

  -- The players are all bound, from the state `b` on.
  record AllBound (i : ℕ) (pis : List PlayerInfo) (b : Bound) : Type 0 where
    before : b.ok ≡ true
    expected : All (IsExpected hero_id_of players) (bound_from i pis)
    distinct : Distinct (ids_of (bound_from i pis))
    unseen : Unseen b.seen (ids_of (bound_from i pis))
    participants :
        (bind_players hero_id_of by_account i pis b).participants
        ≡ b.participants ++ bound_from i pis

  bind_players-AllBound :
      (i : ℕ) (pis : List PlayerInfo) (b : Bound)
      → (bind_players hero_id_of by_account i pis b).ok ≡ true
      → AllBound i pis b
  unfolding bind_players bound_from account_id_of
  bind_players-AllBound i [] b h = record {
    before = h;
    expected = tt;
    distinct = tt;
    unseen = tt;
    participants = sym (append-nil b.participants);
  }
  bind_players-AllBound i (pi ∷ pis) b h =
      let rest : AllBound (suc i) pis (bind_player hero_id_of by_account i pi b) =
        bind_players-AllBound (suc i) pis (bind_player hero_id_of by_account i pi b) h in
      let one : IsBound i pi b = bind_player-IsBound i pi b rest.before in
      let later : List String = ids_of (bound_from (suc i) pis) in
      let unseen : Unseen (insert (account_of pi.steam_id) true b.seen) later =
        subst (λ (c : Bound). Unseen c.seen later) one.state rest.unseen in
      let (others, old) = (Unseen-insert (account_of pi.steam_id) b.seen later).0 unseen in
      record {
        before = one.before;
        expected = (one.expected, rest.expected);
        distinct = (others, rest.distinct);
        unseen = (one.new, old);
        participants =
            rest.participants
            ∙ ap (λ (c : Bound). c.participants ++ bound_from (suc i) pis) one.state
            ∙ append_assoc b.participants (bound_as i pi ∷ []) (bound_from (suc i) pis);
      }

  length-bound_from : (i : ℕ) (pis : List PlayerInfo) → length (bound_from i pis) ≡ length pis
  unfolding bound_from
  length-bound_from i [] = refl
  length-bound_from i (pi ∷ pis) = ap suc (length-bound_from (suc i) pis)

-- Ten participants with distinct accounts, all of them expected.
pub record AllExpected (hero_id_of : String → Option ℤ) (players : List ExpectedPlayer)
    (ps : List Participant) : Type 0 where
  pub ten : length ps ≡ 10
  pub distinct : Distinct (map account_id_of ps)
  pub expected : All (IsExpected hero_id_of players) ps

unique_ok : (b : Bound) → (all_unique b).ok ≡ true → (b.ok ≡ true) × (all_unique b ≡ b)
unique_ok b h = elim (Bool-cases (length b.seen == 10)) [
  | inl ten ↦
      let same : all_unique b ≡ b = if_first (length b.seen == 10) _ _ ten in
      (sym (ap (λ (c : Bound). c.ok) same) ∙ h, same)
  | inr other ↦
      absurd
        (false≢true (sym (ap (λ (c : Bound). c.ok) (if_else (length b.seen == 10) _ _ other)) ∙ h))
]

pub build_participants-AllExpected :
    (hero_id_of : String → Option ℤ) (pis : List PlayerInfo) (mt : Match) (before : List Mismatch)
    → (build_participants hero_id_of pis mt before).ok ≡ true
    → AllExpected hero_id_of mt.expected_participants
        (build_participants hero_id_of pis mt before).participants
unfolding build_participants
build_participants-AllExpected hero_id_of pis mt before h = elim (Bool-cases (length pis == 10)) [
  | inr other ↦ absurd (
      false≢true
        (sym (ap (λ (c : Bound). c.ok) (if_first (not (length pis == 10)) _ _ (ap not other))) ∙ h))
  | inl ten ↦
      let start : Bound = record { ok = true; seen = []; participants = []; mismatches = before } in
      let players : List ExpectedPlayer = mt.expected_participants in
      let loop : Bound = bind_players hero_id_of (expected_by_account players []) 0 pis start in
      let here =
        if_else (not (length pis == 10)) (fail (player_count (length pis)) start) (all_unique loop)
          (ap not ten) in
      let (ok, same) = unique_ok loop (sym (ap (λ (c : Bound). c.ok) here) ∙ h) in
      let all : AllBound hero_id_of players 0 pis start =
        bind_players-AllBound hero_id_of players 0 pis start ok in
      subst (AllExpected hero_id_of players)
        (sym (ap (λ (c : Bound). c.participants) (here ∙ same) ∙ all.participants))
        (record {
          ten = length-bound_from hero_id_of players 0 pis ∙ (==_iff (length pis) 10).0 ten;
          distinct = all.distinct;
          expected = all.expected;
        })
]
