-- ===== src/Episodes/Events.antt =====
-- The death rounds of one account, described by its own deaths, buybacks and respawns alone, and what
-- it means for the builder to have seen such events.
use dota2_ob.Prelude.{
  ◌≡◌, refl, ap, ◌∙◌, inl, inr, Bool-cases, String, Bool, true, false, not, ◌&&◌, Option, none,
  some, List, [], ◌∷◌, ◌++◌, append-nil, map, leb, length, lookup, str_eq, eq_iff, if◌then◌else◌,
  if_first, if_else,
}
use dota2_ob.Prelude.Int.{ℤ, pos}
use dota2_ob.Clock.{FloatOps}
use dota2_ob.Facts.Payloads.{Fact, DeathRespawnBuyback, family_death_respawn}
use dota2_ob.Episodes.Types.{Episode, Builder, FightWindow, DeathRound, kind_death_round}
use dota2_ob.Episodes.{Decoders}
use dota2_ob.Episodes.Types.{Progress}
use dota2_ob.Episodes.Window.{added, add, close, add_death, fight_episode, far_apart}
use dota2_ob.Episodes.Quiet.{unplaced, finished}

-- What happens to an account.
pub data RoundEvent (N : Type 0) : Type 0 where
  died bought_back_at respawned_at : N → RoundEvent N

module _ {N : Type 0} (f : FloatOps N) (a : String) where
  -- A round of the account, from its death to a second after its end.
  abbrev pub round_of : String → N → N → Episode N
  round_of detail death end_second = record {
    id = "";
    match_id = "";
    kind = "death_respawn_buyback_round";
    start_game_second = death;
    end_game_second = f.add end_second (f.of_int (pos 1));
    participants = a ∷ [];
    account_id = a;
    region = "";
    detail = detail;
    evidence_ids = f.to_int death ∷ [];
    rule_version = "";
    missing_inputs = [];
    exclusions = [];
    confidence = pos 10;
  }

  -- The rounds of the account: from its last death, if no buyback or respawn has ended that round.
  unfoldable pub rounds : Option N → List (RoundEvent N) → List (Episode N)
  rounds o [] = []
  rounds o (RoundEvent.died gs ∷ es) = rounds (some gs) es
  rounds none (RoundEvent.bought_back_at gs ∷ es) = rounds none es
  rounds (some death) (RoundEvent.bought_back_at gs ∷ es) =
      round_of "buyback_round" death gs ∷ rounds none es
  rounds none (RoundEvent.respawned_at gs ∷ es) = rounds none es
  rounds (some death) (RoundEvent.respawned_at gs ∷ es) =
      round_of "respawn_round" death gs ∷ rounds none es

  abbrev is_round : Episode N → Bool
  is_round e = str_eq e.kind kind_death_round && str_eq e.account_id a

  -- The account's rounds among some episodes.
  unfoldable pub rounds_in : List (Episode N) → List (Episode N)
  rounds_in [] = []
  rounds_in (e ∷ es) = if is_round e then unplaced e ∷ rounds_in es else rounds_in es

  -- What a decoded fact says of the account.
  unfoldable pub event_of : Fact N → DeathRespawnBuyback N → List (RoundEvent N)
  event_of x d =
      if str_eq d.kind "death"
      then (if str_eq d.account_id a then RoundEvent.died x.game_second ∷ [] else [])
      else if str_eq d.kind "buyback"
      then (if str_eq d.account_id a then RoundEvent.bought_back_at x.game_second ∷ [] else [])
      else if str_eq d.kind "respawn"
      then (if str_eq d.account_id a then RoundEvent.respawned_at x.game_second ∷ [] else [])
      else []

  abbrev pub decoded_event : Fact N → Option (DeathRespawnBuyback N) → List (RoundEvent N)
  decoded_event x none = []
  decoded_event x (some d) = event_of x d

  unfoldable pub events_in : Decoders N → Fact N → List (RoundEvent N)
  events_in dec x =
      if str_eq x.family family_death_respawn then decoded_event x (dec.death x.payload) else []

  unfoldable pub events_of : Decoders N → List (Option (Fact N)) → List (RoundEvent N)
  unfolding events_in event_of
  events_of dec [] = []
  events_of dec (none ∷ xs) = events_of dec xs
  events_of dec (some x ∷ xs) = events_in dec x ++ events_of dec xs

  -- The second of the death whose round is open.
  abbrev pub open_since : Option (DeathRound N) → Option N
  open_since none = none
  open_since (some r) = if r.closed then none else some r.death_sec

  rounds_in-append :
      (es : List (Episode N)) (e : Episode N)
      → rounds_in (es ++ e ∷ []) ≡ rounds_in es ++ (if is_round e then unplaced e ∷ [] else [])
  unfolding rounds_in
  rounds_in-append [] e = refl
  rounds_in-append (x ∷ es) e = elim (Bool-cases (is_round x)) [
    | inl here ↦ rw (here, rounds_in-append es e)
    | inr other ↦ rw (other, rounds_in-append es e)
  ]

  abbrev pub seen_rounds : Progress N → List (Episode N)
  seen_rounds p = rounds_in p.builder.episodes

  pub add-other :
      (e : Episode N) (b : Builder N)
      → is_round e ≡ false
      → rounds_in (add f e b).episodes ≡ rounds_in b.episodes
  unfolding add added
  add-other e b h =
      rounds_in-append b.episodes (added f b.match_id (length b.episodes) e)
      ∙ ap (λ (es : List (Episode N)). rounds_in b.episodes ++ es) (if_else (is_round e) _ _ h)
      ∙ append-nil (rounds_in b.episodes)

  pub add-round :
      (e : Episode N) (b : Builder N)
      → is_round e ≡ true
      → rounds_in (add f e b).episodes ≡ rounds_in b.episodes ++ finished f e ∷ []
  unfolding add added finished
  add-round e b h =
      rounds_in-append b.episodes (added f b.match_id (length b.episodes) e)
      ∙ ap (λ (es : List (Episode N)). rounds_in b.episodes ++ es) (if_first (is_round e) _ _ h)

  -- From `p` to `q` the account has seen the events `es`.
  unfoldable pub Sees : List (RoundEvent N) → Progress N → Progress N → Type 0
  Sees es p q =
      (rest : List (RoundEvent N))
      → seen_rounds q ++ map (finished f) (rounds (open_since (lookup a q.death_rounds)) rest)
        ≡ seen_rounds p
          ++ map (finished f) (rounds (open_since (lookup a p.death_rounds)) (es ++ rest))

  pub nothing-Sees :
      (p q : Progress N)
      → seen_rounds q ≡ seen_rounds p
      → lookup a q.death_rounds ≡ lookup a p.death_rounds
      → Sees [] p q
  unfolding Sees
  nothing-Sees p q h k rest =
      ap
        (λ (es : List (Episode N)).
          es ++ map (finished f) (rounds (open_since (lookup a q.death_rounds)) rest))
        h
      ∙ ap (λ o. seen_rounds p ++ map (finished f) (rounds (open_since o) rest)) k

  pub same : (p : Progress N) → Sees [] p p
  same p = nothing-Sees p p refl refl

  pub if_Sees :
      (t : Bool) (ds es : List (RoundEvent N)) (p q r : Progress N)
      → Sees ds p q
      → Sees es p r
      → Sees (if t then ds else es) p (if t then q else r)
  if_Sees true ds es p q r h k = h
  if_Sees false ds es p q r h k = k

  pub if_same_Sees :
      (t : Bool) (p q r : Progress N) → Sees [] p q → Sees [] p r → Sees [] p (if t then q else r)
  if_same_Sees true p q r h k = h
  if_same_Sees false p q r h k = k

  pub close-other :
      (w : FightWindow N) (b : Builder N)
      → rounds_in (close f w b).1.episodes ≡ rounds_in b.episodes
  unfolding close
  close-other w b = elim (Bool-cases w.is_open) [
    | inr shut ↦ rw shut
    | inl open_window ↦ rw open_window (elim (Bool-cases (leb 2 (length w.accounts))) [
      | inl two ↦ rw two (add-other (fight_episode f w) b refl)
      | inr one ↦ rw one
    ])
  ]

  pub add_death-other :
      (account : String) (gs : N) (seq : ℤ) (w : FightWindow N) (b : Builder N)
      → rounds_in (add_death f account gs seq w b).1.episodes ≡ rounds_in b.episodes
  unfolding add_death
  add_death-other account gs seq w b = elim (Bool-cases w.is_open) [
    | inr shut ↦ rw shut
    | inl open_window ↦ elim (Bool-cases (far_apart f w.last gs)) [
      | inr near ↦ rw (open_window, near)
      | inl far ↦
          ap (λ (wb : FightWindow N × Builder N). rounds_in wb.1.episodes)
            (if_else (not w.is_open) _ _ (ap not open_window)
              ∙ if_first (far_apart f w.last gs) _ _ far)
          ∙ close-other w b
    ]
  ]

  pub self_eq : str_eq a a ≡ true
  self_eq = (eq_iff a a).1 refl
