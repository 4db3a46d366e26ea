-- ===== src/Episodes/Fights.antt =====
-- The fights in the builder after the whole stream.
use mathlib.Core.List.{map-append}
use mathlib.Core.Option.{none-ne-some, some-injective}
use dota2_ob.Prelude.{
  ◌+◌, ◌≡◌, refl, sym, ap, ◌∙◌, ◌⊎◌, inl, inr, Bool-cases, String, Bool, true, false, not, Option,
  none, some, List, [], ◌∷◌, ◌++◌, append-nil, append_assoc, map, lookup, str_eq, if◌then◌else◌,
  if_first, if_else,
}
use dota2_ob.Clock.{FloatOps}
use dota2_ob.Facts.Payloads.{
  Fact, DeathRespawnBuyback, family_death_respawn, family_objective, family_vision, family_modifier,
}
use dota2_ob.Episodes.Types.{Episode, Builder, FightWindow}
use dota2_ob.Episodes.{Decoders, on_fact, if_decoded, run, flush, initial}
use dota2_ob.Episodes.Types.{Progress}
use dota2_ob.Episodes.Window.{close, add_death, opened, new_fight_window, far_apart}
use dota2_ob.Episodes.Handlers.{
  handle_buyback, handle_respawn, on_death_fact, count_death, on_objective, on_vision, on_modifier,
  handle_death, bought_back, respawned, with_fight, with_rounds,
}
use dota2_ob.Episodes.Clusters.{
  Death, closing, window_after, out_of, feed, clusters, fights_of, feed-clusters,
}
use dota2_ob.Episodes.Quiet.{
  finished, fights_of_builder, close-fights, same, end_round-Quiet, on_objective-Quiet,
  on_vision-Quiet, on_modifier-Quiet, Quiet, fights_in,
}

module _ {N : Type 0} (f : FloatOps N) where
  -- From `p` to `q` the window has been fed with the deaths `ds`: whatever follows, the fights are
  -- those of `p` with these deaths before.
  Feeds : List (Death N) → Progress N → Progress N → Type 0
  Feeds ds p q =
      (rest : List (Death N))
      → fights_of_builder f q.builder ++ map (finished f) (feed f rest q.fights)
        ≡ fights_of_builder f p.builder ++ map (finished f) (feed f (ds ++ rest) p.fights)

  Quiet-Feeds : (p q : Progress N) → Quiet f p q → Feeds [] p q
  unfolding Feeds
  Quiet-Feeds p q h rest =
      ap (λ (es : List (Episode N)). es ++ map (finished f) (feed f rest q.fights)) h.fights
      ∙ ap
          (λ (w : FightWindow N). fights_of_builder f p.builder ++ map (finished f) (feed f rest w))
          h.window

  abbrev first_window : Death N → FightWindow N
  first_window d = opened f d.account d.second d.seq

  far_death :
      (d : Death N) (w : FightWindow N) (b : Builder N)
      → w.is_open ≡ true
      → far_apart f w.last d.second ≡ true
      → add_death f d.account d.second d.seq w b ≡ (first_window d, (close f w b).1)
  unfolding add_death
  far_death d w b open_window far =
      if_else (not w.is_open) _ _ (ap not open_window)
      ∙ if_first (far_apart f w.last d.second) _ _ far

  far_feed :
      (d : Death N) (rest : List (Death N)) (w : FightWindow N)
      → w.is_open ≡ true
      → far_apart f w.last d.second ≡ true
      → feed f (d ∷ rest) w ≡ closing f w ++ feed f rest (first_window d)
  unfolding feed out_of window_after
  far_feed d rest w open_window far = rw (open_window, far)

  far-Feeds :
      (d : Death N) (rest : List (Death N)) (w : FightWindow N) (b : Builder N)
      → fights_of_builder f (close f w b).1 ++ map (finished f) (feed f rest (first_window d))
        ≡ fights_of_builder f b ++ map (finished f) (closing f w ++ feed f rest (first_window d))
  far-Feeds d rest w b =
      let later : List (Episode N) = feed f rest (first_window d) in
      ap (λ (es : List (Episode N)). es ++ map (finished f) later) (close-fights f w b)
      ∙ append_assoc (fights_of_builder f b) (map (finished f) (closing f w))
          (map (finished f) later)
      ∙ ap (λ (es : List (Episode N)). fights_of_builder f b ++ es)
          (sym (map-append (finished f) (closing f w) later))

  other_death :
      (d : Death N) (rest : List (Death N)) (w : FightWindow N) (b : Builder N)
      → (w.is_open ≡ false) ⊎ (far_apart f w.last d.second ≡ false)
      → fights_of_builder f (add_death f d.account d.second d.seq w b).1
          ++ map (finished f) (feed f rest (add_death f d.account d.second d.seq w b).0)
        ≡ fights_of_builder f b ++ map (finished f) (feed f (d ∷ rest) w)
  unfolding add_death feed out_of window_after
  other_death d rest w b (inl shut) = rw shut
  other_death d rest w b (inr near) = elim (Bool-cases w.is_open) [
    | inl open_window ↦ rw (open_window, near)
    | inr shut ↦ rw shut
  ]

  add_death-Feeds :
      (d : Death N) (p : Progress N)
      → Feeds (d ∷ []) p (with_fight f (add_death f d.account d.second d.seq p.fights p.builder) p)
  unfolding Feeds
  add_death-Feeds d p rest = elim (Bool-cases p.fights.is_open) [
    | inr shut ↦ other_death d rest p.fights p.builder (inl shut)
    | inl open_window ↦ elim (Bool-cases (far_apart f p.fights.last d.second)) [
      | inr near ↦ other_death d rest p.fights p.builder (inr near)
      | inl far ↦
          ap
            (λ (wb : FightWindow N × Builder N).
              fights_of_builder f wb.1 ++ map (finished f) (feed f rest wb.0))
            (far_death d p.fights p.builder open_window far)
          ∙ far-Feeds d rest p.fights p.builder
          ∙ ap (λ (es : List (Episode N)). fights_of_builder f p.builder ++ map (finished f) es)
              (sym (far_feed d rest p.fights open_window far))
    ]
  ]

  -- The death that a fact is: a decoded death of an account.
  unfoldable pub death_of : Fact N → DeathRespawnBuyback N → List (Death N)
  death_of x d =
      if str_eq d.kind "death"
      then (if str_eq d.account_id ""
          then []
          else record { account = d.account_id; second = x.game_second; seq = x.source_seq } ∷ [])
      else []

  abbrev decoded_death : Fact N → Option (DeathRespawnBuyback N) → List (Death N)
  decoded_death x none = []
  decoded_death x (some d) = death_of x d

  unfoldable pub deaths_of : Decoders N → List (Option (Fact N)) → List (Death N)
  unfolding death_of
  deaths_of dec [] = []
  deaths_of dec (none ∷ xs) = deaths_of dec xs
  deaths_of dec (some x ∷ xs) =
      (if str_eq x.family family_death_respawn then decoded_death x (dec.death x.payload) else [])
      ++ deaths_of dec xs

  if_Feeds :
      (t : Bool) (ds es : List (Death N)) (p q r : Progress N)
      → Feeds ds p q
      → Feeds es p r
      → Feeds (if t then ds else es) p (if t then q else r)
  if_Feeds true ds es p q r h k = h
  if_Feeds false ds es p q r h k = k

  if_same_Feeds :
      (t : Bool) (p q r : Progress N)
      → Feeds [] p q
      → Feeds [] p r
      → Feeds [] p (if t then q else r)
  if_same_Feeds true p q r h k = h
  if_same_Feeds false p q r h k = k

  count_death-Feeds :
      (x : Fact N) (d : DeathRespawnBuyback N) (p : Progress N)
      → Feeds
          (if str_eq d.account_id ""
            then []
            else record { account = d.account_id; second = x.game_second; seq = x.source_seq } ∷ [])
          p
          (count_death f d.account_id x.game_second x.source_seq p)
  count_death-Feeds x d p =
      let e : Death N = record {
        account = d.account_id;
        second = x.game_second;
        seq = x.source_seq;
      } in
      if_Feeds (str_eq d.account_id "") [] (e ∷ []) p p
        (with_fight f (add_death f e.account e.second e.seq p.fights p.builder) p)
        (Quiet-Feeds p p (same f p)) (add_death-Feeds e p)

  on_death_fact-Feeds :
      (x : Fact N) (d : DeathRespawnBuyback N) (p : Progress N)
      → Feeds (death_of x d) p (on_death_fact f x d p)
  unfolding on_death_fact death_of handle_buyback handle_respawn Feeds
  on_death_fact-Feeds x d p =
      if_Feeds (str_eq d.kind "death") _ [] p
        (with_rounds f (handle_death f d.account_id x.game_second p.death_rounds)
          (count_death f d.account_id x.game_second x.source_seq p))
        _ (count_death-Feeds x d p)
        (if_same_Feeds (str_eq d.kind "buyback") p (handle_buyback f d.account_id x.game_second p) _
          (Quiet-Feeds p _ (
            end_round-Quiet f "buyback_round" (bought_back f x.game_second) d.account_id
              x.game_second (lookup d.account_id p.death_rounds) p))
          (if_same_Feeds (str_eq d.kind "respawn") p (handle_respawn f d.account_id x.game_second p)
            p
            (Quiet-Feeds p _ (
              end_round-Quiet f "respawn_round" (respawned f x.game_second) d.account_id
                x.game_second (lookup d.account_id p.death_rounds) p))
            (Quiet-Feeds p p (same f p))))

  if_decoded-Quiet :
      {A : Type 0} (o : Option A) (k : A → Progress N → Progress N) (p : Progress N)
      → ((a : A) → Quiet f p (k a p))
      → Feeds [] p (if_decoded f o k p)
  if_decoded-Quiet none k p h = Quiet-Feeds p p (same f p)
  if_decoded-Quiet (some a) k p h = Quiet-Feeds p (k a p) (h a)

  if_decoded-Feeds :
      (x : Fact N) (o : Option (DeathRespawnBuyback N)) (p : Progress N)
      → Feeds (decoded_death x o) p (if_decoded f o (on_death_fact f x) p)
  if_decoded-Feeds x none p = Quiet-Feeds p p (same f p)
  if_decoded-Feeds x (some d) p = on_death_fact-Feeds x d p

  -- The deaths of one fact.
  deaths_in : Decoders N → Fact N → List (Death N)
  deaths_in dec x =
      if str_eq x.family family_death_respawn then decoded_death x (dec.death x.payload) else []

  on_fact-Feeds :
      (dec : Decoders N) (x : Fact N) (p : Progress N)
      → Feeds (deaths_in dec x) p (on_fact f dec x p)
  unfolding on_fact Feeds deaths_in
  on_fact-Feeds dec x p =
      let p' : Progress N = record p { facts_seen = p.facts_seen + 1 } in
      if_Feeds (str_eq x.family family_death_respawn) (decoded_death x (dec.death x.payload)) [] p'
        (if_decoded f (dec.death x.payload) (on_death_fact f x) p') _
        (if_decoded-Feeds x (dec.death x.payload) p')
        (if_same_Feeds (str_eq x.family family_objective) p'
          (if_decoded f (dec.objective x.payload) (on_objective f x) p') _
          (if_decoded-Quiet (dec.objective x.payload) (on_objective f x) p'
            (λ o. on_objective-Quiet f x o p'))
          (if_same_Feeds (str_eq x.family family_vision) p'
            (if_decoded f (dec.vision x.payload) (on_vision f x) p') _
            (if_decoded-Quiet (dec.vision x.payload) (on_vision f x) p'
              (λ v. on_vision-Quiet f x v p'))
            (if_same_Feeds (str_eq x.family family_modifier) p'
              (if_decoded f (dec.modifier x.payload) (on_modifier f x) p') p'
              (if_decoded-Quiet (dec.modifier x.payload) (on_modifier f x) p'
                (λ m. on_modifier-Quiet f x m p'))
              (Quiet-Feeds p' p' (same f p')))))

  -- Only a fact that cannot be read stops the loop.
  pub run_ends :
      (dec : Decoders N) (xs : List (Fact N)) (p : Progress N)
      → (q : Progress N) × (run f dec (map some xs) p ≡ some q)
  unfolding run
  run_ends dec [] p = (p, refl)
  run_ends dec (x ∷ xs) p = run_ends dec xs (on_fact f dec x p)

  run-Feeds :
      (dec : Decoders N) (xs : List (Option (Fact N))) (p q : Progress N)
      → run f dec xs p ≡ some q
      → Feeds (deaths_of dec xs) p q
  unfolding run deaths_of deaths_in Feeds
  run-Feeds dec [] p q h rest =
      ap
        (λ (r : Progress N).
          fights_of_builder f r.builder ++ map (finished f) (feed f rest r.fights))
        (sym (some-injective p q h))
  run-Feeds dec (none ∷ xs) p q h rest = absurd (none-ne-some q h)
  run-Feeds dec (some x ∷ xs) p q h rest =
      run-Feeds dec xs (on_fact f dec x p) q h rest
      ∙ on_fact-Feeds dec x p (deaths_of dec xs ++ rest)
      ∙ ap (λ ds. fights_of_builder f p.builder ++ map (finished f) (feed f ds p.fights))
          (sym (append_assoc (deaths_in dec x) (deaths_of dec xs) rest))

  -- On a stream that can be read to its end, the loop of Build ends, and once the window is flushed the
  -- fights among the episodes are exactly those of the stream's deaths: cut where two deaths in a row
  -- lie more than 30 seconds apart, one for each piece with two accounts or more, in their order.
  pub fights_in-eq-clusters :
      (dec : Decoders N) (match_id : String) (account_name : List (String × String))
      (xs : List (Fact N))
      → (q : Progress N) × (run f dec (map some xs) (initial f match_id account_name) ≡ some q)
        × (fights_in (flush f q).builder.episodes
            ≡ map (finished f) (fights_of f (clusters f (deaths_of dec (map some xs)))))
  unfolding flush fights_in feed Feeds
  fights_in-eq-clusters dec match_id account_name xs =
      let (q, h) = run_ends dec xs (initial f match_id account_name) in
      let deaths : List (Death N) = deaths_of dec (map some xs) in
      (
        q,
        h,
        close-fights f q.fights q.builder
            ∙ run-Feeds dec (map some xs) (initial f match_id account_name) q h []
            ∙ ap (λ ds. map (finished f) (feed f ds (new_fight_window f))) (append-nil deaths)
            ∙ ap (map (finished f)) (feed-clusters f deaths (new_fight_window f) refl),
      )
