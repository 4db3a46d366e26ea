-- ===== src/Phase/Finalize.antt =====
-- One finalized second: the engine goes on running, or it ends just after the second.
use mathlib.Core.Path.{subst}
use dota2_ob.Prelude.{
  ◌≡◌, refl, sym, ap, ◌∙◌, ◌⊎◌, inl, inr, Bool-cases, String, Bool, true, false, not, ◌&&◌, List,
  [], ◌∷◌, arith, if◌then◌else◌, leb, length, lookup,
}
use dota2_ob.Prelude.Int.{ℤ, pos, ◌+ℤ◌, ◌≤ℤ◌, ◌<ℤ◌, ltb_ℤ, leb_ℤ, int_laws}
use dota2_ob.Phase.{
  Phase, pregame, laning, midgame, decisive, ended, official, PosSample, Engine, second_or_zero,
}
use dota2_ob.Phase.Anchors.{compute_anchors, anchor_account, has_anchor}
use dota2_ob.Phase.Rules.{should_enter_midgame, should_enter_decisive, should_reset}
use dota2_ob.Phase.Steps.{
  close_interval, interval_of, transition, evaluate, ended_by, finalize_second,
}
use dota2_ob.Phase.Tiling.{Chain, Chain-snoc, Running, transition-Running}

-- Two guards that let through.
if_neither {ℓ} :
    {A : Type ℓ} (b c : Bool) (x y z : A)
    → b ≡ false
    → c ≡ false
    → (if b then x else if c then y else z) ≡ z
if_neither b c x y z hb hc = rw (hb, hc)

module _ {N : Type 0} (num_lt : N → N → Bool) where
  anchor_only :
      (account : String) (m : List (ℤ × PosSample N)) (e : Engine N)
      → anchor_account num_lt account m e
        ≡ record e { anchors = (anchor_account num_lt account m e).anchors }
  anchor_only account m e =
      elim (Bool-cases (
        not (has_anchor num_lt (lookup account e.anchors))
        && leb_ℤ (pos 0) (second_or_zero (lookup account e.anchor_second))
        && leb_ℤ (second_or_zero (lookup account e.anchor_second)) (pos 180)
        && leb 45 (length m))) [ inl new ↦ rw new | inr old ↦ rw old ]

  -- The loop over the positions changes the anchors and nothing else.
  pub anchors_only :
      (ms : List (String × List (ℤ × PosSample N))) (e : Engine N)
      → compute_anchors num_lt ms e ≡ record e { anchors = (compute_anchors num_lt ms e).anchors }
  unfolding compute_anchors
  anchors_only [] e = refl
  anchors_only ((account, m) ∷ ms) e =
      let e1 : Engine N = anchor_account num_lt account m e in
      anchors_only ms e1
      ∙ ap (λ (x : Engine N). record x { anchors = (compute_anchors num_lt ms e1).anchors })
          (anchor_only account m e)

module _ {N : Type 0} where
  -- What an operation that decides no time leaves alone.
  pub record SameClock (e e' : Engine N) : Type 0 where
    pub last : e'.last_second ≡ e.last_second
    pub game_end : e'.game_end_second ≡ e.game_end_second
    pub ancient : e'.ancient_death_second ≡ e.ancient_death_second

  Running-if :
      (s : ℤ) (test : Bool) (e f : Engine N)
      → Running s f
      → Running s e
      → Running s (if test then f else e)
  Running-if s true e f rf re = rf
  Running-if s false e f rf re = re

module _ {N : Type 0} (num_lt : N → N → Bool) (one : N) where
  pub close_interval-SameClock :
      (end : ℤ) (p : Phase) (e : Engine N) → SameClock e (close_interval num_lt one end p e)
  unfolding close_interval
  close_interval-SameClock end p e = ground arith

  transition-SameClock :
      (s : ℤ) (p : Phase) (e : Engine N) → SameClock e (transition num_lt one s p e)
  unfolding transition
  transition-SameClock s p e = ground (arith, close_interval-SameClock s p e)

  evaluate-SameClock : (s : ℤ) (p : Phase) (e : Engine N) → SameClock e (evaluate num_lt one s p e)
  evaluate-SameClock s laning e = ground (arith, transition-SameClock s midgame e)
  evaluate-SameClock s midgame e = ground (arith, transition-SameClock s decisive e)
  evaluate-SameClock s decisive e = ground (arith, transition-SameClock s midgame e)
  evaluate-SameClock s pregame e = ground arith
  evaluate-SameClock s ended e = ground arith

  evaluate-Running :
      (s : ℤ) (p : Phase) (e : Engine N) → Running s e → Running s (evaluate num_lt one s p e)
  unfolding official
  evaluate-Running s laning e r =
      Running-if s (should_enter_midgame s e) e (transition num_lt one s midgame e)
        (transition-Running num_lt one s midgame e refl r) r
  evaluate-Running s midgame e r =
      Running-if s (should_enter_decisive s e) e (transition num_lt one s decisive e)
        (transition-Running num_lt one s decisive e refl r) r
  evaluate-Running s decisive e r =
      Running-if s (should_reset s e) e (transition num_lt one s midgame e)
        (transition-Running num_lt one s midgame e refl r) r
  evaluate-Running s pregame e r = r
  evaluate-Running s ended e r = r

  -- A running engine that closes its last interval after the current start.
  pub close_interval-Chain :
      (end s : ℤ) (p : Phase) (e : Engine N)
      → Running s e
      → s <ℤ end
      → Chain (pos 0) (close_interval num_lt one end p e).intervals end
  unfolding close_interval
  close_interval-Chain end s p e r l = elim (Bool-cases (leb_ℤ end e.current_start)) [
    | inl early ↦ absurd (omega (int_laws, r.bounded))
    | inr late ↦ rw late (
        Chain-snoc (pos 0) e.current_start e.intervals (interval_of num_lt one end e) r.chain refl
          (omega int_laws) r.phase)
  ]

  -- What finalizing the second `s` does to a running engine.
  abbrev pub Goes : ℤ → Engine N → Engine N → Type 0
  Goes s e e' = Running s e' × (ended_by num_lt one s e.ancient_death_second ≡ false)

  abbrev pub Ends : ℤ → Engine N → Engine N → Type 0
  Ends s e e' =
      (e'.has_ended ≡ true)
      × Chain (pos 0) e'.intervals (s +ℤ pos 1)
      × (ended_by num_lt one s e.ancient_death_second ≡ true)

  abbrev finalize_body : ℤ → Engine N → Engine N
  finalize_body s e =
      if ended_by num_lt one s e.ancient_death_second
      then record (close_interval num_lt one (s +ℤ pos 1) ended e) { has_ended = true }
      else evaluate num_lt one s e.current e

  finalize_body_lem :
      (s : ℤ) (e : Engine N)
      → Running s e
      → SameClock e (finalize_body s e)
        × (Goes s e (finalize_body s e) ⊎ Ends s e (finalize_body s e))
  finalize_body_lem s e r = elim (Bool-cases (ended_by num_lt one s e.ancient_death_second)) [
    | inl over ↦ rw over (
      ground (arith, close_interval-SameClock (s +ℤ pos 1) ended e),
      inr (refl, close_interval-Chain (s +ℤ pos 1) s ended e r (omega int_laws), refl),
    )
    | inr going ↦
        rw going (evaluate-SameClock s e.current e, inl (evaluate-Running s e.current e r, refl))
  ]

  without_anchors : Engine N → Engine N
  without_anchors e = record e { anchors = (compute_anchors num_lt e.positions e).anchors }

  finalize_unfolds :
      (s : ℤ) (e : Engine N)
      → pos 0 ≤ℤ s
      → Running s e
      → finalize_second num_lt one s e ≡ finalize_body s (without_anchors e)
  unfolding finalize_second without_anchors
  finalize_unfolds s e h r =
      let late : ltb_ℤ s (pos 0) ≡ false = ground arith in
      if_neither e.has_ended (ltb_ℤ s (pos 0)) e e
        (finalize_body s (compute_anchors num_lt e.positions e)) r.going late
      ∙ ap (finalize_body s) (anchors_only num_lt e.positions e)

  -- A second from 0 on that is finalized while the engine runs leaves the clocks alone and the
  -- engine running, with its phase begun no later than the second, if the ancient has not died by
  -- then; else it ends the engine, with its last interval closed right after the second.
  pub finalize_second_lem :
      (s : ℤ) (e : Engine N)
      → pos 0 ≤ℤ s
      → Running s e
      → SameClock e (finalize_second num_lt one s e)
        × (Goes s e (finalize_second num_lt one s e) ⊎ Ends s e (finalize_second num_lt one s e))
  unfolding without_anchors
  finalize_second_lem s e h r =
      let running : Running s (without_anchors e) = record {
        chain = r.chain;
        from_zero = r.from_zero;
        bounded = r.bounded;
        phase = r.phase;
        going = r.going;
      } in
      let (same, way) = finalize_body_lem s (without_anchors e) running in
      subst (λ x. SameClock e x × (Goes s e x ⊎ Ends s e x)) (sym (finalize_unfolds s e h r))
        (record { last = same.last; game_end = same.game_end; ancient = same.ancient }, way)
