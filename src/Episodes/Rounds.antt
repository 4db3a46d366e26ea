-- ===== src/Episodes/Rounds.antt =====
-- The death rounds of one account in the builder after the whole stream.
use mathlib.Core.Option.{none-ne-some, some-injective}
use dota2_ob.Prelude.{
  ◌+◌, ◌≡◌, refl, sym, ap, ◌∙◌, inl, inr, Bool-cases, String, Bool, true, false, not, Option, none,
  some, List, [], ◌∷◌, ◌++◌, append-nil, append_assoc, map, is_some, lookup, lookup-insert, str_eq,
  eq_iff, if◌then◌else◌, if_first, if_else,
}
use dota2_ob.Prelude.Int.{ℤ}
use dota2_ob.Clock.{FloatOps}
use dota2_ob.Facts.Payloads.{
  Fact, DeathRespawnBuyback, ObjectiveFact, VisionFact, ModifierFact, family_death_respawn,
  family_objective, family_vision, family_modifier,
}
use dota2_ob.Episodes.Types.{Episode, DeathRound}
use dota2_ob.Episodes.{Decoders, on_fact, if_decoded, run, flush, initial}
use dota2_ob.Episodes.Types.{Progress}
use dota2_ob.Episodes.Window.{add, add_death}
use dota2_ob.Episodes.Handlers.{
  handle_death, handle_buyback, handle_respawn, bought_back, respawned, on_death_fact, count_death,
  with_fight, with_rounds, on_objective, on_vision, on_modifier, objective_episode, ward_episode,
  smoke_episode, is_ward, ward_key, with_ward, first_ward, or_false, is_smoke, smoke_key,
  with_smoke, first_smoke,
}
use dota2_ob.Episodes.Quiet.{finished}
use dota2_ob.Episodes.Fights.{run_ends}
use dota2_ob.Episodes.Events.{
  RoundEvent, rounds, rounds_in, event_of, decoded_event, events_in, events_of, open_since,
  seen_rounds, add-other, Sees, nothing-Sees, same, if_Sees, if_same_Sees, close-other,
  add_death-other,
}
use dota2_ob.Episodes.Ended.{end_round-Sees}

module _ {N : Type 0} (f : FloatOps N) (a : String) where
  handle_buyback-Sees :
      (account : String) (gs : N) (p : Progress N)
      → Sees f a
          (if str_eq account a then RoundEvent.bought_back_at gs ∷ [] else [])
          p
          (handle_buyback f account gs p)
  unfolding handle_buyback rounds
  handle_buyback-Sees account gs p =
      end_round-Sees f a "buyback_round" (bought_back f) RoundEvent.bought_back_at (λ s es. refl)
        (λ s t es. refl) account gs p

  handle_respawn-Sees :
      (account : String) (gs : N) (p : Progress N)
      → Sees f a
          (if str_eq account a then RoundEvent.respawned_at gs ∷ [] else [])
          p
          (handle_respawn f account gs p)
  unfolding handle_respawn rounds
  handle_respawn-Sees account gs p =
      end_round-Sees f a "respawn_round" (respawned f) RoundEvent.respawned_at (λ s es. refl)
        (λ s t es. refl) account gs p

  count_death-other :
      (account : String) (gs : N) (seq : ℤ) (p : Progress N)
      → (seen_rounds f a (count_death f account gs seq p) ≡ seen_rounds f a p)
        × ((count_death f account gs seq p).death_rounds ≡ p.death_rounds)
  count_death-other account gs seq p = elim (Bool-cases (str_eq account "")) [
    | inl nobody ↦ (rw nobody, rw nobody)
    | inr somebody ↦
        let here =
          if_else (str_eq account "") p
            (with_fight f (add_death f account gs seq p.fights p.builder) p) somebody in
        (
          ap (seen_rounds f a) here ∙ add_death-other f a account gs seq p.fights p.builder,
          ap (λ (q : Progress N). q.death_rounds) here,
        )
  ]

  since-death :
      (account : String) (gs : N) (m : List (String × DeathRound N))
      → str_eq a "" ≡ false
      → open_since f a (lookup a (handle_death f account gs m))
        ≡ (if str_eq account a then some gs else open_since f a (lookup a m))
  unfolding handle_death
  since-death account gs m named = elim (Bool-cases (str_eq account a)) [
    | inl own ↦
        let somebody : str_eq account "" ≡ false =
          ap (λ c. str_eq c "") ((eq_iff account a).0 own) ∙ named in
        rw (somebody, own)
          (ap (open_since f a) (lookup-insert account a _ m ∙ if_first (str_eq account a) _ _ own))
    | inr other ↦ rw other (elim (Bool-cases (str_eq account "")) [
      | inl nobody ↦ rw nobody
      | inr somebody ↦
          rw somebody (
            ap (open_since f a)
              (lookup-insert account a _ m ∙ if_else (str_eq account a) _ _ other))
    ])
  ]

  abbrev after_death : String → N → ℤ → Progress N → Progress N
  after_death account gs seq p =
      with_rounds f (handle_death f account gs p.death_rounds) (count_death f account gs seq p)

  death-Sees :
      (account : String) (gs : N) (seq : ℤ) (p : Progress N)
      → str_eq a "" ≡ false
      → Sees f a
          (if str_eq account a then RoundEvent.died gs ∷ [] else [])
          p
          (after_death account gs seq p)
  unfolding Sees rounds
  death-Sees account gs seq p named rest =
      let q : Progress N = after_death account gs seq p in
      let seen : seen_rounds f a q ≡ seen_rounds f a p = (count_death-other account gs seq p).0 in
      let since = since-death account gs p.death_rounds named in
      ap
        (λ (es : List (Episode N)).
          es ++ map (finished f) (rounds f a (open_since f a (lookup a q.death_rounds)) rest))
        seen
      ∙ ap (λ o. seen_rounds f a p ++ map (finished f) (rounds f a o rest)) since
      ∙ ap (λ (es : List (Episode N)). seen_rounds f a p ++ map (finished f) es)
          (of_test (str_eq account a))
    where
      of_test :
          (t : Bool)
          → rounds f a (if t then some gs else open_since f a (lookup a p.death_rounds)) rest
            ≡ rounds f a
                (open_since f a (lookup a p.death_rounds))
                ((if t then RoundEvent.died gs ∷ [] else []) ++ rest)
      of_test true = refl
      of_test false = refl

  on_death_fact-Sees :
      (x : Fact N) (d : DeathRespawnBuyback N) (p : Progress N)
      → str_eq a "" ≡ false
      → Sees f a (event_of f a x d) p (on_death_fact f x d p)
  unfolding on_death_fact event_of Sees
  on_death_fact-Sees x d p named =
      let own : RoundEvent N → List (RoundEvent N) =
        λ (ev : RoundEvent N). if str_eq d.account_id a then ev ∷ [] else [] in
      if_Sees f a (str_eq d.kind "death") (own (RoundEvent.died x.game_second)) _ p
        (after_death d.account_id x.game_second x.source_seq p) _
        (death-Sees d.account_id x.game_second x.source_seq p named)
        (if_Sees f a (str_eq d.kind "buyback") (own (RoundEvent.bought_back_at x.game_second)) _ p
          (handle_buyback f d.account_id x.game_second p) _
          (handle_buyback-Sees d.account_id x.game_second p)
          (if_Sees f a (str_eq d.kind "respawn") (own (RoundEvent.respawned_at x.game_second)) [] p
            (handle_respawn f d.account_id x.game_second p) p
            (handle_respawn-Sees d.account_id x.game_second p) (same f a p)))

  if_decoded-other :
      {A : Type 0} (o : Option A) (k : A → Progress N → Progress N) (p : Progress N)
      → ((x : A) → Sees f a [] p (k x p))
      → Sees f a [] p (if_decoded f o k p)
  if_decoded-other none k p h = same f a p
  if_decoded-other (some x) k p h = h x

  on_objective-other :
      (x : Fact N) (o : ObjectiveFact) (p : Progress N) → Sees f a [] p (on_objective f x o p)
  unfolding objective_episode
  on_objective-other x o p =
      if_same_Sees f a o.is_real_building p _ p
        (nothing-Sees f a p
          (record p { builder = add f (objective_episode f o x.game_second) p.builder })
          (add-other f a (objective_episode f o x.game_second) p.builder refl) refl)
        (same f a p)

  on_vision-other :
      (x : Fact N) (v : VisionFact N) (p : Progress N) → Sees f a [] p (on_vision f x v p)
  unfolding on_vision ward_episode
  on_vision-other x v p =
      if_same_Sees f a (not (is_ward f v.kind)) p p (first_ward f x v p) (same f a p) (
        if_same_Sees f a (is_some (lookup (ward_key f v) p.ward_seen)) p p (with_ward f x v p)
          (same f a p)
          (nothing-Sees f a p (with_ward f x v p)
            (add-other f a (ward_episode f x v) p.builder refl) refl))

  on_modifier-other :
      (x : Fact N) (m : ModifierFact N) (p : Progress N) → Sees f a [] p (on_modifier f x m p)
  unfolding on_modifier smoke_episode
  on_modifier-other x m p =
      if_same_Sees f a (not (is_smoke f m)) p p (first_smoke f x m p) (same f a p) (
        if_same_Sees f a (or_false f (lookup (smoke_key f x m) p.smoke_seen)) p p
          (with_smoke f x m p) (same f a p)
          (nothing-Sees f a p (with_smoke f x m p)
            (add-other f a (smoke_episode f x m) p.builder refl) refl))

  decoded-Sees :
      (x : Fact N) (o : Option (DeathRespawnBuyback N)) (p : Progress N)
      → str_eq a "" ≡ false
      → Sees f a (decoded_event f a x o) p (if_decoded f o (on_death_fact f x) p)
  decoded-Sees x none p named = same f a p
  decoded-Sees x (some d) p named = on_death_fact-Sees x d p named

  on_fact-Sees :
      (dec : Decoders N) (x : Fact N) (p : Progress N)
      → str_eq a "" ≡ false
      → Sees f a (events_in f a dec x) p (on_fact f dec x p)
  unfolding on_fact Sees events_in
  on_fact-Sees dec x p named =
      let p' : Progress N = record p { facts_seen = p.facts_seen + 1 } in
      if_Sees f a (str_eq x.family family_death_respawn) (decoded_event f a x (dec.death x.payload))
        [] p' (if_decoded f (dec.death x.payload) (on_death_fact f x) p') _
        (decoded-Sees x (dec.death x.payload) p' named)
        (if_same_Sees f a (str_eq x.family family_objective) p'
          (if_decoded f (dec.objective x.payload) (on_objective f x) p') _
          (if_decoded-other (dec.objective x.payload) (on_objective f x) p'
            (λ o. on_objective-other x o p'))
          (if_same_Sees f a (str_eq x.family family_vision) p'
            (if_decoded f (dec.vision x.payload) (on_vision f x) p') _
            (if_decoded-other (dec.vision x.payload) (on_vision f x) p'
              (λ v. on_vision-other x v p'))
            (if_same_Sees f a (str_eq x.family family_modifier) p'
              (if_decoded f (dec.modifier x.payload) (on_modifier f x) p') p'
              (if_decoded-other (dec.modifier x.payload) (on_modifier f x) p'
                (λ m. on_modifier-other x m p'))
              (same f a p'))))

  run-Sees :
      (dec : Decoders N) (xs : List (Option (Fact N))) (p q : Progress N)
      → str_eq a "" ≡ false
      → run f dec xs p ≡ some q
      → Sees f a (events_of f a dec xs) p q
  unfolding run events_of Sees
  run-Sees dec [] p q named h rest =
      ap
        (λ (r : Progress N).
          seen_rounds f a r
          ++ map (finished f) (rounds f a (open_since f a (lookup a r.death_rounds)) rest))
        (sym (some-injective p q h))
  run-Sees dec (none ∷ xs) p q named h rest = absurd (none-ne-some q h)
  run-Sees dec (some x ∷ xs) p q named h rest =
      run-Sees dec xs (on_fact f dec x p) q named h rest
      ∙ on_fact-Sees dec x p named (events_of f a dec xs ++ rest)
      ∙ ap
          (λ es.
            seen_rounds f a p
            ++ map (finished f) (rounds f a (open_since f a (lookup a p.death_rounds)) es))
          (sym (append_assoc (events_in f a dec x) (events_of f a dec xs) rest))

-- On a stream that can be read to its end, the loop of Build ends, and once the window is flushed the
-- death rounds of an account with a name are those of the account's own events: a buyback or respawn
-- ends a round exactly if the account died after its buyback or respawn before that one, and the
-- round starts at its last death.
pub rounds_in-eq-rounds :
    {N : Type 0} (f : FloatOps N) (a : String) (dec : Decoders N) (match_id : String)
    (account_name : List (String × String)) (xs : List (Fact N))
    → str_eq a "" ≡ false
    → (q : Progress N) × (run f dec (map some xs) (initial f match_id account_name) ≡ some q)
      × (rounds_in f a (flush f q).builder.episodes
          ≡ map (finished f) (rounds f a none (events_of f a dec (map some xs))))
unfolding flush rounds_in Sees lookup rounds
rounds_in-eq-rounds f a dec match_id account_name xs named =
    let (q, h) = run_ends f dec xs (initial f match_id account_name) in
    let events : List (RoundEvent _) = events_of f a dec (map some xs) in
    (
      q,
      h,
      close-other f a q.fights q.builder
          ∙ sym (append-nil (rounds_in f a q.builder.episodes))
          ∙ run-Sees f a dec (map some xs) (initial f match_id account_name) q named h []
          ∙ ap (λ es. map (finished f) (rounds f a none es)) (append-nil events),
    )
