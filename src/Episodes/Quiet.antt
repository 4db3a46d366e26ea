-- ===== src/Episodes/Quiet.antt =====
-- What leaves the fights of the builder as they are.
use dota2_ob.Prelude.{
  ◌≡◌, refl, sym, ap, ◌∙◌, inl, inr, Bool-cases, String, Bool, true, false, not, Option, none, some,
  List, [], ◌∷◌, ◌++◌, append-nil, map, leb, length, is_some, lookup, str_eq, if◌then◌else◌,
  if_else,
}
use dota2_ob.Clock.{FloatOps}
use dota2_ob.Facts.Payloads.{Fact, ObjectiveFact, VisionFact, ModifierFact}
use dota2_ob.Episodes.Types.{Episode, Builder, FightWindow, DeathRound, kind_fight}
use dota2_ob.Episodes.Types.{Progress}
use dota2_ob.Episodes.Window.{added, add, close, fight_episode}
use dota2_ob.Episodes.Handlers.{
  end_round, on_objective, on_vision, on_modifier, objective_episode, ward_episode, smoke_episode,
  round_episode, is_ward, ward_key, with_ward, first_ward, or_false, is_smoke, smoke_key,
  with_smoke, first_smoke,
}
use dota2_ob.Episodes.Clusters.{closing}

-- An episode without what its place in the builder gives it.
abbrev pub unplaced : {N : Type 0} → Episode N → Episode N
unplaced e = record e { id = ""; match_id = "" }

-- The fights among some episodes.
unfoldable pub fights_in : {N : Type 0} → List (Episode N) → List (Episode N)
fights_in [] = []
fights_in (e ∷ es) = if str_eq e.kind kind_fight then unplaced e ∷ fights_in es else fights_in es

module _ {N : Type 0} (f : FloatOps N) where
  -- An episode as Add leaves it, without its place.
  unfoldable pub finished : Episode N → Episode N
  unfolding added
  finished e = unplaced (added f "" 0 e)

  fights_in-append :
      (es : List (Episode N)) (e : Episode N)
      → fights_in (es ++ e ∷ [])
        ≡ fights_in es ++ (if str_eq e.kind kind_fight then unplaced e ∷ [] else [])
  unfolding fights_in
  fights_in-append [] e = refl
  fights_in-append (x ∷ es) e = elim (Bool-cases (str_eq x.kind kind_fight)) [
    | inl fight ↦ rw (fight, fights_in-append es e)
    | inr other ↦ rw (other, fights_in-append es e)
  ]

  abbrev pub fights_of_builder : Builder N → List (Episode N)
  fights_of_builder b = fights_in b.episodes

  fights_in-add :
      (e : Episode N) (b : Builder N)
      → fights_of_builder (add f e b)
        ≡ fights_of_builder b ++ (if str_eq e.kind kind_fight then finished e ∷ [] else [])
  unfolding add added finished
  fights_in-add e b = fights_in-append b.episodes (added f b.match_id (length b.episodes) e)

  pub close-fights :
      (w : FightWindow N) (b : Builder N)
      → fights_of_builder (close f w b).1 ≡ fights_of_builder b ++ map finished (closing f w)
  unfolding close closing
  close-fights w b = elim (Bool-cases w.is_open) [
    | inr shut ↦ rw shut (sym (append-nil (fights_of_builder b)))
    | inl open_window ↦ rw open_window (elim (Bool-cases (leb 2 (length w.accounts))) [
      | inl two ↦ rw two (fights_in-add (fight_episode f w) b)
      | inr one ↦ rw one (sym (append-nil (fights_of_builder b)))
    ])
  ]

  -- Neither the window nor the fights change.
  pub record Quiet (p q : Progress N) : Type 0 where
    pub window : q.fights ≡ p.fights
    pub fights : fights_of_builder q.builder ≡ fights_of_builder p.builder

  pub same : (p : Progress N) → Quiet p p
  same p = record { window = refl; fights = refl }

  if_Quiet : (t : Bool) (p q r : Progress N) → Quiet p q → Quiet p r → Quiet p (if t then q else r)
  if_Quiet true p q r h k = h
  if_Quiet false p q r h k = k

  add-Quiet :
      (e : Episode N) (b : Builder N)
      → str_eq e.kind kind_fight ≡ false
      → fights_of_builder (add f e b) ≡ fights_of_builder b
  add-Quiet e b h =
      fights_in-add e b
      ∙ ap (λ (es : List (Episode N)). fights_of_builder b ++ es) (if_else _ _ _ h)
      ∙ append-nil (fights_of_builder b)

  pub end_round-Quiet :
      (detail : String) (stamp : DeathRound N → DeathRound N) (account : String) (gs : N)
      (o : Option (DeathRound N)) (p : Progress N)
      → Quiet p (end_round f detail stamp account gs o p)
  end_round-Quiet detail stamp account gs none p = same p
  end_round-Quiet detail stamp account gs (some r) p = if_Quiet r.closed p p _ (same p) (record {
    window = refl;
    fights = add-Quiet (round_episode f detail account r.death_sec gs) p.builder refl;
  })

  pub on_objective-Quiet :
      (x : Fact N) (o : ObjectiveFact) (p : Progress N) → Quiet p (on_objective f x o p)
  unfolding objective_episode
  on_objective-Quiet x o p =
      if_Quiet o.is_real_building p _ p
        (record {
          window = refl;
          fights = add-Quiet (objective_episode f o x.game_second) p.builder refl;
        })
        (same p)

  pub on_vision-Quiet :
      (x : Fact N) (v : VisionFact N) (p : Progress N) → Quiet p (on_vision f x v p)
  unfolding on_vision ward_episode
  on_vision-Quiet x v p = if_Quiet (not (is_ward f v.kind)) p p (first_ward f x v p) (same p) (
      if_Quiet (is_some (lookup (ward_key f v) p.ward_seen)) p p (with_ward f x v p) (same p)
        (record { window = refl; fights = add-Quiet (ward_episode f x v) p.builder refl }))

  pub on_modifier-Quiet :
      (x : Fact N) (m : ModifierFact N) (p : Progress N) → Quiet p (on_modifier f x m p)
  unfolding on_modifier smoke_episode
  on_modifier-Quiet x m p = if_Quiet (not (is_smoke f m)) p p (first_smoke f x m p) (same p) (
      if_Quiet (or_false f (lookup (smoke_key f x m) p.smoke_seen)) p p (with_smoke f x m p)
        (same p)
        (record { window = refl; fights = add-Quiet (smoke_episode f x m) p.builder refl }))
