-- ===== src/Episodes/Ended.antt =====
-- The end of a death round, by a buyback or a respawn.
use mathlib.Core.Path.{subst}
use dota2_ob.Prelude.{
  ◌≡◌, refl, sym, ap, ◌∙◌, inl, inr, Bool-cases, String, true, false, Option, none, some, List, [],
  ◌∷◌, ◌++◌, append_assoc, map, lookup, insert, lookup-insert, str_eq, eq_iff, if◌then◌else◌,
  if_first, if_else,
}
use dota2_ob.Clock.{FloatOps}
use dota2_ob.Episodes.Types.{Episode, DeathRound}
use dota2_ob.Episodes.Types.{Progress}
use dota2_ob.Episodes.Window.{add}
use dota2_ob.Episodes.Handlers.{end_round, round_episode}
use dota2_ob.Episodes.Quiet.{finished}
use dota2_ob.Episodes.Events.{
  RoundEvent, rounds, open_since, seen_rounds, add-other, add-round, Sees, nothing-Sees, same,
  if_same_Sees, self_eq,
}

module _ {N : Type 0} (f : FloatOps N) (a : String) where
  -- The end of a round of the account itself, by an event that ends a round.
  module _ (detail : String) (stamp : N → DeathRound N → DeathRound N) (ev : N → RoundEvent N)
      (idle : (gs : N) (es : List (RoundEvent N))
        → rounds f a none (ev gs ∷ es) ≡ rounds f a none es)
      (ends : (s gs : N) (es : List (RoundEvent N))
        → rounds f a (some s) (ev gs ∷ es)
          ≡ round_episode f detail a s gs ∷ rounds f a none es) where
    own_idle :
        (gs : N) (p : Progress N)
        → open_since f a (lookup a p.death_rounds) ≡ none
        → Sees f a (ev gs ∷ []) p p
    unfolding Sees
    own_idle gs p e rest = rw e (
        ap (λ (es : List (Episode N)). seen_rounds f a p ++ map (finished f) es)
          (sym (idle gs rest)))

    abbrev ended_round : N → DeathRound N → DeathRound N
    ended_round gs r = record (stamp gs r) { closed = true }

    own_running :
        (gs : N) (p : Progress N) (r : DeathRound N)
        → open_since f a (lookup a p.death_rounds) ≡ some r.death_sec
        → Sees f a (ev gs ∷ []) p (record p {
          death_rounds = insert a (ended_round gs r) p.death_rounds;
          builder = add f (round_episode f detail a r.death_sec gs) p.builder;
        })
    unfolding Sees
    own_running gs p r e rest =
        let e' : Episode N = round_episode f detail a r.death_sec gs in
        let gone : open_since f a (lookup a (insert a (ended_round gs r) p.death_rounds)) ≡ none =
          ap (open_since f a) (
            lookup-insert a a (ended_round gs r) p.death_rounds
            ∙ if_first (str_eq a a) _ _ (self_eq f a)) in
        let later : List (Episode N) = map (finished f) (rounds f a none rest) in
        rw (e, gone)
          (ap (λ (es : List (Episode N)). es ++ later) (add-round f a e' p.builder (self_eq f a))
            ∙ append_assoc (seen_rounds f a p) (finished f e' ∷ []) later
            ∙ ap (λ (es : List (Episode N)). seen_rounds f a p ++ map (finished f) es)
                (sym (ends r.death_sec gs rest)))

    own_round :
        (gs : N) (p : Progress N) (o : Option (DeathRound N))
        → lookup a p.death_rounds ≡ o
        → Sees f a (ev gs ∷ []) p (end_round f detail (stamp gs) a gs o p)
    own_round gs p none e = own_idle gs p (ap (open_since f a) e)
    own_round gs p (some r) e =
        let since = ap (open_since f a) e in
        elim (Bool-cases r.closed) [
          | inl closed ↦
              subst (Sees f a (ev gs ∷ []) p) (sym (if_first r.closed _ _ closed))
                (own_idle gs p (since ∙ if_first r.closed none (some r.death_sec) closed))
          | inr running ↦
              subst (Sees f a (ev gs ∷ []) p) (sym (if_else r.closed _ _ running))
                (own_running gs p r (since ∙ if_else r.closed none (some r.death_sec) running))
        ]

    other_round :
        (account : String) (gs : N) (p : Progress N) (o : Option (DeathRound N))
        → str_eq account a ≡ false
        → Sees f a [] p (end_round f detail (stamp gs) account gs o p)
    other_round account gs p none h = same f a p
    other_round account gs p (some r) h = if_same_Sees f a r.closed p p _ (same f a p) (
        nothing-Sees f a p _
          (add-other f a (round_episode f detail account r.death_sec gs) p.builder h)
          (lookup-insert account a (record (stamp gs r) { closed = true }) p.death_rounds
            ∙ if_else (str_eq account a) _ _ h))

    pub end_round-Sees :
        (account : String) (gs : N) (p : Progress N)
        → Sees f a
            (if str_eq account a then ev gs ∷ [] else [])
            p
            (end_round f detail (stamp gs) account gs (lookup account p.death_rounds) p)
    end_round-Sees account gs p = elim (Bool-cases (str_eq account a)) [
      | inr other ↦
          subst
            (λ es.
              Sees f a es p
                (end_round f detail (stamp gs) account gs (lookup account p.death_rounds) p))
            (sym (if_else (str_eq account a) _ _ other))
            (other_round account gs p (lookup account p.death_rounds) other)
      | inl own ↦
          subst
            (λ es.
              Sees f a es p
                (end_round f detail (stamp gs) account gs (lookup account p.death_rounds) p))
            (sym (if_first (str_eq account a) _ _ own))
            (subst
              (λ c.
                Sees f a (ev gs ∷ []) p
                  (end_round f detail (stamp gs) c gs (lookup c p.death_rounds) p))
              (sym ((eq_iff account a).0 own)) (own_round gs p (lookup a p.death_rounds) refl))
    ]
