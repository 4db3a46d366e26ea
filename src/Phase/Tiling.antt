-- ===== src/Phase/Tiling.antt =====
-- The intervals of the engine tile the time from 0, whatever the inputs and their order.
use mathlib.Core.Path.{subst}
use dota2_ob.Prelude.{
  ◌≡◌, refl, sym, ap, ◌∙◌, inl, inr, Bool-cases, Bool, true, false, List, [], ◌∷◌, ◌++◌, arith,
}
use dota2_ob.Prelude.Int.{
  ℤ, pos, ◌+ℤ◌, ◌-ℤ◌, ◌≤ℤ◌, ◌<ℤ◌, leb_ℤ, int_laws, eq_of_parts, pos_part, neg_part,
}
use dota2_ob.Phase.{Phase, official, phase_eq, Interval, Engine}
use dota2_ob.Phase.Steps.{close_interval, transition, interval_of, covered}

-- Intervals that follow one another without gap or overlap from `a` to `b`, each of a positive
-- length and of one of the three official phases.
abbrev pub Chain : {N : Type 0} → ℤ → List (Interval N) → ℤ → Type 0
Chain a [] b = a ≡ b
Chain a (i ∷ is) b =
    (i.start_game_second ≡ a)
    × (a <ℤ i.end_game_second)
    × (official i.global_phase ≡ true)
    × Chain i.end_game_second is b

pub Chain-snoc :
    {N : Type 0} (a b : ℤ) (is : List (Interval N)) (i : Interval N)
    → Chain a is b
    → i.start_game_second ≡ b
    → b <ℤ i.end_game_second
    → official i.global_phase ≡ true
    → Chain a (is ++ i ∷ []) i.end_game_second
Chain-snoc a b [] i c s l o = (s ∙ sym c, subst (λ z. z <ℤ i.end_game_second) (sym c) l, o, refl)
Chain-snoc a b (j ∷ is) i c s l o = (c.0, c.1, c.2, Chain-snoc j.end_game_second b is i c.3 s l o)

module _ {N : Type 0} where
  -- A running engine: its intervals end where the current phase began, not after `b`.
  pub record Running (b : ℤ) (e : Engine N) : Type 0 where
    pub chain : Chain (pos 0) e.intervals e.current_start
    pub from_zero : pos 0 ≤ℤ e.current_start
    pub bounded : e.current_start ≤ℤ b
    pub phase : official e.current ≡ true
    pub going : e.has_ended ≡ false

module _ {N : Type 0} (num_lt : N → N → Bool) (one : N) where
  -- What End counts as covered is the length of the chain.
  pub covered-Chain :
      (a b total : ℤ) (is : List (Interval N))
      → Chain a is b
      → covered num_lt one is total +ℤ a ≡ total +ℤ b
  unfolding covered
  covered-Chain a b total [] c = ap (λ z. total +ℤ z) c
  covered-Chain a b total (i ∷ is) c = rw c.2 (
      let step : ℤ = total +ℤ (i.end_game_second -ℤ i.start_game_second) in
      let rest : covered num_lt one is step +ℤ i.end_game_second ≡ step +ℤ b =
        covered-Chain i.end_game_second b step is c.3 in
      omega (int_laws, ap pos_part rest, ap neg_part rest, ap pos_part c.0, ap neg_part c.0))

  pub has_ended-close_interval :
      (end : ℤ) (p : Phase) (e : Engine N)
      → (close_interval num_lt one end p e).has_ended ≡ e.has_ended
  unfolding close_interval
  has_ended-close_interval end p e = ground arith

  pub closes_at :
      (s : ℤ) (p : Phase) (e : Engine N)
      → Running s e
      → Chain (pos 0) (close_interval num_lt one s p e).intervals s
  unfolding close_interval
  closes_at s p e r = elim (Bool-cases (leb_ℤ s e.current_start)) [
    | inl here ↦
        let same : e.current_start ≡ s =
          eq_of_parts e.current_start s (omega (int_laws, r.bounded)) in
        rw here (subst (Chain (pos 0) e.intervals) same r.chain)
    | inr late ↦
        let after : e.current_start <ℤ s = omega int_laws in
        rw late (
          Chain-snoc (pos 0) e.current_start e.intervals (interval_of num_lt one s e) r.chain refl
            after r.phase)
  ]

  pub transition-Running :
      (s : ℤ) (p : Phase) (e : Engine N)
      → official p ≡ true
      → Running s e
      → Running s (transition num_lt one s p e)
  unfolding transition
  transition-Running s p e o r = elim (Bool-cases (phase_eq e.current p)) [
    | inl same ↦ rw same r
    | inr other ↦ rw other (record {
      chain = closes_at s p e r;
      from_zero = omega (int_laws, r.from_zero, r.bounded);
      bounded = omega arith;
      phase = o;
      going = has_ended-close_interval s p e ∙ r.going;
    })
  ]
