-- ===== src/Phase/Exact.antt =====
-- What End returns for inputs in order: the phases cover the eligible seconds exactly.
use mathlib.Core.Path.{subst}
use mathlib.Core.Option.{none-ne-some}
use dota2_ob.Prelude.{
  ◌≡◌, refl, sym, ap, ◌∙◌, inl, inr, Bool-cases, Bool, none, some, List, arith, if_first, if_else,
}
use dota2_ob.Prelude.Int.{ℤ, pos, ◌+ℤ◌, ◌≤ℤ◌, ◌<ℤ◌, ltb_ℤ, int_laws, eq_of_parts}
use dota2_ob.Phase.{ended, Input, Engine, new_engine, official}
use dota2_ob.Phase.Steps.{
  close_interval, finalize_second, feed_all, eligible, early_end, close_final, end_state, finish,
  result,
}
use dota2_ob.Phase.Tiling.{Chain, Running}
use dota2_ob.Phase.Tiled.{floor, finalize_second-ended}
use dota2_ob.Phase.Finalize.{SameClock, close_interval-Chain, close_interval-SameClock}
use dota2_ob.Phase.Stream.{covered_of_Chain}
use dota2_ob.Phase.Ordered.{Ordered, Over, Alive, InStep, settle}
use dota2_ob.Phase.Fed.{feed_all-InStep}

floor_in : (g s : ℤ) → s ≤ℤ g → pos 0 ≤ℤ g → floor s ≤ℤ g
floor_in g s h from = ground arith

new_engine_last : (N : Type 0) (g : ℤ) → (new_engine {N = N} g).last_second ≤ℤ pos 0
unfolding new_engine
new_engine_last N g = omega arith

module _ {N : Type 0} (g : ℤ) (num_lt : N → N → Bool) (one : N) where
  -- The intervals tile the eligible num_lt one seconds.
  abbrev IsExact : Engine N → Type 0
  IsExact e =
      Chain (pos 0) e.intervals (eligible num_lt one e.game_end_second e.ancient_death_second)

  Over-IsExact : (e : Engine N) → e.game_end_second ≡ g → Over g e → IsExact e
  Over-IsExact e ge o =
      let end : eligible num_lt one e.game_end_second e.ancient_death_second ≡ o.death +ℤ pos 1 =
        ap (λ a. eligible num_lt one e.game_end_second a) o.died
        ∙ ap (λ z. eligible num_lt one z (some o.death)) ge
        ∙ smaller o.death o.within in
      subst (Chain (pos 0) e.intervals) (sym end) o.chain
    where
      smaller : (d : ℤ) → d ≤ℤ g → eligible num_lt one g (some d) ≡ d +ℤ pos 1
      smaller d h = elim (Bool-cases (ltb_ℤ (d +ℤ pos 1) (g +ℤ pos 1))) [
        | inl less ↦ if_first (ltb_ℤ (d +ℤ pos 1) (g +ℤ pos 1)) _ _ less
        | inr same ↦
            if_else (ltb_ℤ (d +ℤ pos 1) (g +ℤ pos 1)) _ _ same
            ∙ eq_of_parts (g +ℤ pos 1) (d +ℤ pos 1) (omega int_laws)
      ]

  abbrev ending : Engine N → Engine N
  ending e = close_final num_lt one (finalize_second num_lt one e.last_second e)

  -- An engine that is over stays as it is.
  ending-Over : (e : Engine N) → e.game_end_second ≡ g → Over g e → IsExact (ending e)
  ending-Over e ge o =
      let same : finalize_second num_lt one e.last_second e ≡ e =
        finalize_second-ended num_lt one e.last_second e o.ended in
      subst (λ x. IsExact (close_final num_lt one x)) (sym same)
        (subst IsExact (sym (if_first e.has_ended e _ o.ended)) (Over-IsExact e ge o))

  close-Over :
      (x : Engine N) → x.game_end_second ≡ g → Over g x → IsExact (close_final num_lt one x)
  close-Over x ge o = subst IsExact (sym (if_first x.has_ended x _ o.ended)) (Over-IsExact x ge o)

  close-Running :
      (b : ℤ) (x : Engine N)
      → x.game_end_second ≡ g
      → b ≤ℤ g
      → Running b x
      → x.ancient_death_second ≡ none
      → IsExact (close_final num_lt one x)
  close-Running b x ge within r alive =
      let c : Engine N = close_interval num_lt one (x.game_end_second +ℤ pos 1) ended x in
      let same : SameClock x c =
        close_interval-SameClock num_lt one (x.game_end_second +ℤ pos 1) ended x in
      let end : eligible num_lt one c.game_end_second c.ancient_death_second
          ≡ x.game_end_second +ℤ pos 1 =
        ap (λ a. eligible num_lt one c.game_end_second a) (same.ancient ∙ alive)
        ∙ ap (λ z. z +ℤ pos 1) same.game_end in
      let before : b <ℤ x.game_end_second +ℤ pos 1 =
        subst (λ z. b <ℤ z +ℤ pos 1) (sym ge) (omega (int_laws, within)) in
      subst IsExact (sym (if_else x.has_ended x _ r.going)) (
        subst (Chain (pos 0) c.intervals) (sym end)
          (close_interval-Chain num_lt one (x.game_end_second +ℤ pos 1) b ended x r before))

  finalized_death :
      (e : Engine N)
      → InStep g e
      → e.ancient_death_second ≡ some e.last_second
      → Over g (finalize_second num_lt one e.last_second e)
  finalized_death e h died = elim (settle g num_lt one e h).1 [
    | inr over ↦ over
    | inl (r, alive) ↦
        absurd (none-ne-some e.last_second (sym alive ∙ (settle g num_lt one e h).0.ancient ∙ died))
  ]

  finalized_alive :
      (e : Engine N)
      → InStep g e
      → e.ancient_death_second ≡ none
      → Running (floor e.last_second) (finalize_second num_lt one e.last_second e)
  finalized_alive e h alive = elim (settle g num_lt one e h).1 [
    | inl (r, still) ↦ r
    | inr over ↦
        absurd (
          none-ne-some over.death (sym alive ∙ sym (settle g num_lt one e h).0.ancient ∙ over.died))
  ]

  died_early :
      (e : Engine N)
      → InStep g e
      → e.ancient_death_second ≡ some e.last_second
      → IsExact (ending (early_end num_lt one (some e.last_second) e))
  died_early e h died = elim (Bool-cases (ltb_ℤ e.last_second e.game_end_second)) [
    | inl before ↦
        let x : Engine N = finalize_second num_lt one e.last_second e in
        let ge : x.game_end_second ≡ g = (settle g num_lt one e h).0.game_end ∙ h.game_end in
        let o : Over g x = finalized_death e h died in
        subst (λ y. IsExact (ending y))
          (sym (if_first (ltb_ℤ e.last_second e.game_end_second) _ e before))
          (ending-Over (record x { last_second = e.last_second }) ge
            (record {
              ended = o.ended;
              death = o.death;
              died = o.died;
              within = o.within;
              chain = o.chain;
            }))
    | inr at_end ↦
        subst (λ y. IsExact (ending y))
          (sym (if_else (ltb_ℤ e.last_second e.game_end_second) _ e at_end))
          (close-Over (finalize_second num_lt one e.last_second e)
            ((settle g num_lt one e h).0.game_end ∙ h.game_end) (finalized_death e h died))
  ]

  ending-Alive :
      (e : Engine N)
      → InStep g e
      → pos 0 ≤ℤ g
      → Alive g e
      → IsExact (ending (early_end num_lt one e.ancient_death_second e))
  ending-Alive e h from (inl nobody) =
      subst (λ a. IsExact (ending (early_end num_lt one a e))) (sym nobody)
        (close-Running (floor e.last_second) (finalize_second num_lt one e.last_second e)
          ((settle g num_lt one e h).0.game_end ∙ h.game_end)
          (floor_in g e.last_second h.last_in from) (finalized_alive e h nobody)
          ((settle g num_lt one e h).0.ancient ∙ nobody))
  ending-Alive e h from (inr (died, later)) =
      subst (λ a. IsExact (ending (early_end num_lt one a e))) (sym died) (died_early e h died)

  end_state-IsExact : (e : Engine N) → InStep g e → pos 0 ≤ℤ g → IsExact (end_state num_lt one e)
  unfolding end_state
  end_state-IsExact e h from = elim h.state [
    | inr over ↦
        subst IsExact (sym (if_first e.has_ended e _ over.ended)) (Over-IsExact e h.game_end over)
    | inl (r, alive) ↦
        subst IsExact (sym (if_else e.has_ended e _ r.going)) (ending-Alive e h from alive)
  ]

  new_engine-InStep : pos 0 ≤ℤ g → InStep g (new_engine {N = N} g)
  unfolding new_engine official
  new_engine-InStep from = record {
    game_end = refl;
    last_in = omega (arith, from);
    state = inl (
      record {
        chain = refl;
        from_zero = omega arith;
        bounded = omega arith;
        phase = refl;
        going = refl;
      },
      inl refl,
    );
  }

-- For inputs that come in the order of their seconds, none before 0 or after the end of the game, the
-- official phases cover the eligible seconds exactly: up to the death of the ancient if it died, and
-- else up to the end of the game.
pub covered-eq-eligible :
    {N : Type 0} (num_lt : N → N → Bool) (one : N) (inputs : List (Input N)) (game_end : ℤ)
    → pos 0 ≤ℤ game_end
    → Ordered (pos 0) game_end inputs
    → let o = finish num_lt one (feed_all num_lt one inputs (new_engine game_end)) in
      o.covered_seconds ≡ o.eligible_seconds
unfolding finish result
covered-eq-eligible {N} num_lt one inputs game_end from ordered =
    let e : Engine N = feed_all num_lt one inputs (new_engine game_end) in
    let step : InStep game_end e =
      feed_all-InStep game_end num_lt one inputs (pos 0) (new_engine game_end)
        (new_engine-InStep game_end num_lt one from) (omega arith) (new_engine_last N game_end)
        ordered in
    let x : Engine N = end_state num_lt one e in
    covered_of_Chain num_lt one x.intervals
      (eligible num_lt one x.game_end_second x.ancient_death_second)
      (end_state-IsExact game_end num_lt one e step from)
