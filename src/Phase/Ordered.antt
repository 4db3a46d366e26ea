-- ===== src/Phase/Ordered.antt =====
-- An engine that is fed in order, with no input after the end of the game.
use mathlib.Core.Path.{subst}
use mathlib.Core.Bool.{true≢false}
use dota2_ob.Prelude.{
  ◌≡◌, refl, sym, ap, ◌∙◌, ◌⊎◌, inl, inr, Bool-cases, Bool, true, none, some, List, [], ◌∷◌, arith,
}
use dota2_ob.Prelude.Int.{ℤ, pos, ◌+ℤ◌, ◌≤ℤ◌, ltb_ℤ, int_laws, eq_of_parts}
use dota2_ob.Phase.{Input, Engine}
use dota2_ob.Phase.Steps.{finalize_second, ended_by, advance_to}
use dota2_ob.Phase.Tiling.{Chain, Running}
use dota2_ob.Phase.Tiled.{
  floor, floor_late, floor-mono, finalize_second-early, finalize_second-ended,
}
use dota2_ob.Phase.Finalize.{SameClock, Goes, Ends, finalize_second_lem}

-- Inputs in the order of their seconds, from `b` to `g`.
abbrev pub Ordered : {N : Type 0} → ℤ → ℤ → List (Input N) → Type 0
Ordered b g [] = Unit
Ordered b g (i ∷ is) = (b ≤ℤ i.game_second) × (i.game_second ≤ℤ g) × Ordered i.game_second g is

module _ {N : Type 0} (g : ℤ) where
  -- The engine ended just after the second `d` in which the ancient died.
  pub record Over (e : Engine N) : Type 0 where
    pub ended : e.has_ended ≡ true
    pub death : ℤ
    pub died : e.ancient_death_second ≡ some death
    pub within : death ≤ℤ g
    pub chain : Chain (pos 0) e.intervals (death +ℤ pos 1)

  -- The ancient has not died, or it died in the last second seen.
  abbrev pub Alive : Engine N → Type 0
  Alive e =
      (e.ancient_death_second ≡ none)
      ⊎ ((e.ancient_death_second ≡ some e.last_second) × (pos 0 ≤ℤ e.last_second))

  pub record InStep (e : Engine N) : Type 0 where
    pub game_end : e.game_end_second ≡ g
    pub last_in : e.last_second ≤ℤ g
    pub state : (Running (floor e.last_second) e × Alive e) ⊎ Over e

  -- After the last second is finalized.
  abbrev pub Settled : ℤ → Engine N → Type 0
  Settled b e = (Running b e × (e.ancient_death_second ≡ none)) ⊎ Over e

  module _ (num_lt : N → N → Bool) (one : N) where
    settle_same :
        (s : ℤ) (e : Engine N)
        → finalize_second num_lt one s e ≡ e
        → Settled (floor s) e
        → SameClock e (finalize_second num_lt one s e)
          × Settled (floor s) (finalize_second num_lt one s e)
    settle_same s e same settled =
        subst (λ x. SameClock e x × Settled (floor s) x) (sym same)
          (record { last = refl; game_end = refl; ancient = refl }, settled)

    settle_late :
        (e : Engine N)
        → floor e.last_second ≡ e.last_second
        → e.last_second ≤ℤ g
        → let x = finalize_second num_lt one e.last_second e in
          SameClock e x
          → Alive e
          → Goes num_lt one e.last_second e x ⊎ Ends num_lt one e.last_second e x
          → Settled (floor e.last_second) x
    settle_late e at within same (inl nobody) (inl goes) = inl (
      subst (λ z. Running z (finalize_second num_lt one e.last_second e)) (sym at) goes.0,
      same.ancient ∙ nobody,
    )
    settle_late e at within same (inl nobody) (inr ends) =
        absurd (true≢false (sym ends.2 ∙ ap (ended_by num_lt one e.last_second) nobody))
    settle_late e at within same (inr (died, later)) (inl goes) =
        let now : ended_by num_lt one e.last_second (some e.last_second) ≡ true = ground arith in
        absurd (true≢false (sym now ∙ sym (ap (ended_by num_lt one e.last_second) died) ∙ goes.1))
    settle_late e at within same (inr (died, later)) (inr ends) = inr (record {
      ended = ends.0;
      death = e.last_second;
      died = same.ancient ∙ died;
      within = within;
      chain = ends.1;
    })

    pub settle :
        (e : Engine N)
        → InStep e
        → let x = finalize_second num_lt one e.last_second e in
          SameClock e x × Settled (floor e.last_second) x
    settle e h = elim h.state [
      | inr over ↦
          settle_same e.last_second e (finalize_second-ended num_lt one e.last_second e over.ended)
            (inr over)
      | inl (r, alive) ↦ elim (Bool-cases (ltb_ℤ e.last_second (pos 0))) [
        | inl early ↦
            settle_same e.last_second e (finalize_second-early num_lt one e.last_second e early)
              (elim alive [
                | inl nobody ↦ inl (r, nobody)
                | inr (died, later) ↦ absurd (omega (int_laws, later))
              ])
        | inr late ↦
            let at : floor e.last_second ≡ e.last_second =
              floor_late e.last_second (omega int_laws) in
            let (same, way) =
              finalize_second_lem num_lt one e.last_second e (omega int_laws)
                (subst (λ z. Running z e) at r) in
            (same, settle_late e at h.last_in same alive way)
      ]
    ]

    Settled-InStep :
        (b s : ℤ) (e : Engine N)
        → e.game_end_second ≡ g
        → floor b ≤ℤ floor s
        → s ≤ℤ g
        → Settled (floor b) e
        → InStep (record e { last_second = s })
    Settled-InStep b s e ge le within (inl (r, nobody)) = record {
      game_end = ge;
      last_in = within;
      state = inl (
        record {
          chain = r.chain;
          from_zero = r.from_zero;
          bounded = omega (arith, r.bounded);
          phase = r.phase;
          going = r.going;
        },
        inl nobody,
      );
    }
    Settled-InStep b s e ge le within (inr o) = record {
      game_end = ge;
      last_in = within;
      state = inr (record {
        ended = o.ended;
        death = o.death;
        died = o.died;
        within = o.within;
        chain = o.chain;
      });
    }

    -- Moving on to a second that is not before the last one.
    pub advance_to-InStep :
        (s : ℤ) (e : Engine N)
        → InStep e
        → e.last_second ≤ℤ s
        → s ≤ℤ g
        → InStep (advance_to num_lt one s e) × ((advance_to num_lt one s e).last_second ≡ s)
    unfolding advance_to
    advance_to-InStep s e h le within = elim (Bool-cases (ltb_ℤ e.last_second s)) [
      | inl later ↦
          let (same, settled) = settle e h in
          rw later (
            Settled-InStep e.last_second s (finalize_second num_lt one e.last_second e)
                (same.game_end ∙ h.game_end) (floor-mono e.last_second s le) within settled,
            refl,
          )
      | inr same ↦ rw same (h, eq_of_parts e.last_second s (omega int_laws))
    ]
