-- ===== src/Phase/Fed.antt =====
-- Inputs in order keep the engine in step.
use mathlib.Core.Path.{subst}
use mathlib.Core.Option.{none-ne-some}
use dota2_ob.Prelude.{
  ◌≡◌, refl, sym, ap, ◌∙◌, ◌⊎◌, inl, inr, Bool-cases, Option-cases, Bool, none, some, List, [], ◌∷◌,
  arith, if_first, if_else,
}
use dota2_ob.Prelude.Int.{ℤ, pos, ◌≤ℤ◌, ltb_ℤ, pos_part, neg_part}
use dota2_ob.Phase.{
  InputKind, hero_death, hero_buyback, tower_death, rax_death, ancient_death, hero_position, damage,
  respawn, Input, Engine,
}
use dota2_ob.Phase.Steps.{take_input, advance_to, feed, feed_all}
use dota2_ob.Phase.Tiling.{Running}
use dota2_ob.Phase.Tiled.{floor, SameCourse}
use dota2_ob.Phase.Stream.{take_input-SameCourse}
use dota2_ob.Phase.Ordered.{Ordered, Over, Alive, InStep, advance_to-InStep}

module _ {N : Type 0} (g : ℤ) (num_lt : N → N → Bool) (one : N) where
  -- What an input does to the time of the death.
  abbrev Marks : Engine N → Engine N → Input N → Type 0
  Marks e x i =
      (x.last_second ≡ e.last_second)
      × (x.game_end_second ≡ e.game_end_second)
      × ((x.ancient_death_second ≡ e.ancient_death_second)
          ⊎ ((e.ancient_death_second ≡ none) × (x.ancient_death_second ≡ some i.game_second)))

  take_input-Marks :
      (k : InputKind) (i : Input N) (e : Engine N) → Marks e (take_input num_lt one k i e) i
  unfolding take_input
  take_input-Marks ancient_death i e = elim (Option-cases e.ancient_death_second) [
    | inl nobody ↦ rw nobody (refl, refl, inr (refl, refl))
    | inr (d, died) ↦ rw died (refl, refl, inl refl)
  ]
  take_input-Marks hero_death i e = (refl, refl, inl refl)
  take_input-Marks hero_buyback i e = (refl, refl, inl refl)
  take_input-Marks tower_death i e = (refl, refl, inl refl)
  take_input-Marks rax_death i e = (refl, refl, inl refl)
  take_input-Marks hero_position i e = (refl, refl, inl refl)
  take_input-Marks damage i e = (refl, refl, inl refl)
  take_input-Marks respawn i e = (refl, refl, inl refl)

  Running-SameCourse : (b : ℤ) (e x : Engine N) → SameCourse e x → Running b e → Running b x
  Running-SameCourse b e x h r = record {
    chain = rw (h.intervals, h.start) r.chain;
    from_zero = rw h.start r.from_zero;
    bounded = rw h.start r.bounded;
    phase = rw h.current r.phase;
    going = rw h.over r.going;
  }

  Over-SameCourse :
      (e x : Engine N)
      → SameCourse e x
      → x.ancient_death_second ≡ e.ancient_death_second
      → Over g e
      → Over g x
  Over-SameCourse e x h same o = record {
    ended = h.over ∙ o.ended;
    death = o.death;
    died = same ∙ o.died;
    within = o.within;
    chain = rw h.intervals o.chain;
  }

  marked_state :
      (e x : Engine N) (i : Input N)
      → SameCourse e x
      → Marks e x i
      → e.last_second ≡ i.game_second
      → pos 0 ≤ℤ i.game_second
      → (Running (floor e.last_second) e × Alive g e) ⊎ Over g e
      → (Running (floor x.last_second) x × Alive g x) ⊎ Over g x
  marked_state e x i same (last, ge, inl kept) at h (inr over) =
      inr (Over-SameCourse e x same kept over)
  marked_state e x i same (last, ge, inr (none_yet, now)) at h (inr over) =
      absurd (none-ne-some over.death (sym none_yet ∙ over.died))
  marked_state e x i same (last, ge, mark) at h (inl (r, alive)) = inl (
    subst (λ z. Running (floor z) x) (sym last)
        (Running-SameCourse (floor e.last_second) e x same r),
    marked_alive e x i (last, ge, mark) at h alive,
  )
    where
      marked_alive :
          (e x : Engine N) (i : Input N)
          → Marks e x i
          → e.last_second ≡ i.game_second
          → pos 0 ≤ℤ i.game_second
          → Alive g e
          → Alive g x
      marked_alive e x i (last, ge, inl kept) at h (inl nobody) = inl (kept ∙ nobody)
      marked_alive e x i (last, ge, inl kept) at h (inr (died, later)) =
          inr (kept ∙ died ∙ ap some (sym last), subst (λ z. pos 0 ≤ℤ z) (sym last) later)
      marked_alive e x i (last, ge, inr (none_yet, now)) at h alive =
          inr (now ∙ ap some (sym at ∙ sym last), subst (λ z. pos 0 ≤ℤ z) (sym (last ∙ at)) h)

  take_input-InStep :
      (k : InputKind) (i : Input N) (e : Engine N)
      → InStep g e
      → e.last_second ≡ i.game_second
      → pos 0 ≤ℤ i.game_second
      → InStep g (take_input num_lt one k i e)
        × ((take_input num_lt one k i e).last_second ≡ i.game_second)
  take_input-InStep k i e h at from =
      let x : Engine N = take_input num_lt one k i e in
      let marks : Marks e x i = take_input-Marks k i e in
      (
        record {
          game_end = marks.1 ∙ h.game_end;
          last_in = subst (λ z. z ≤ℤ g) (sym marks.0) h.last_in;
          state =
              marked_state e x i (take_input-SameCourse num_lt one k i e).0 marks at from h.state;
        },
        marks.0 ∙ at,
      )

  abbrev Kept : ℤ → Engine N → Type 0
  Kept s x = InStep g x × (x.last_second ≤ℤ s)

  feed-Kept :
      (i : Input N) (e : Engine N)
      → InStep g e
      → pos 0 ≤ℤ i.game_second
      → e.last_second ≤ℤ i.game_second
      → i.game_second ≤ℤ g
      → Kept i.game_second (feed num_lt one i e)
  unfolding feed
  feed-Kept i e h from le within =
      subst (Kept i.game_second) (sym (if_else (ltb_ℤ i.game_second (pos 0)) e _ (ground arith)))
        (elim (Bool-cases e.has_ended) [
          | inl ended ↦ subst (Kept i.game_second) (sym (if_first e.has_ended e _ ended)) (h, le)
          | inr going ↦
              let (step, at) = advance_to-InStep g num_lt one i.game_second e h le within in
              let x : Engine N = advance_to num_lt one i.game_second e in
              let (taken, last) = take_input-InStep i.kind i x step at from in
              subst (Kept i.game_second)
                (sym (
                  if_else e.has_ended e _ going
                  ∙ if_else (ltb_ℤ x.game_end_second i.game_second) x _
                      (ap (λ z. ltb_ℤ z i.game_second) step.game_end ∙ ground arith)))
                (taken, omega (arith, ap pos_part last, ap neg_part last))
        ])

  pub feed_all-InStep :
      (is : List (Input N)) (b : ℤ) (e : Engine N)
      → InStep g e
      → pos 0 ≤ℤ b
      → e.last_second ≤ℤ b
      → Ordered b g is
      → InStep g (feed_all num_lt one is e)
  unfolding feed_all
  feed_all-InStep [] b e h from le o = h
  feed_all-InStep (i ∷ is) b e h from le (after, within, rest) =
      let (step, last) =
        feed-Kept i e h (omega (arith, from, after)) (omega (arith, le, after)) within in
      feed_all-InStep is i.game_second (feed num_lt one i e) step (omega (arith, from, after)) last
        rest
