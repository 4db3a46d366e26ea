-- ===== src/Phase/Agreement.antt =====
-- PerSecond of internal/replay/phase/phase.go agrees with the intervals that End returned.
use mathlib.Core.Path.{subst}
use mathlib.Core.List.{Memᴰ}
use mathlib.Core.Option.{none-ne-some, some-injective}
use dota2_ob.Prelude.{
  ℕ, ◌<◌, ◌≡◌, refl, sym, ap, ◌∙◌, inl, inr, Bool-cases, Bool, Option, some, List, [], ◌∷◌, length,
  arith, if_first, if_else,
}
use dota2_ob.Prelude.Int.{ℤ, pos, ◌≤ℤ◌, ◌<ℤ◌, ltb_ℤ, int_laws, pos_part}
use dota2_ob.Phase.{Phase, Input, Interval, Output, new_engine}
use dota2_ob.Phase.Steps.{feed_all, finish}
use dota2_ob.Phase.Tiling.{Chain}
use dota2_ob.Phase.Stream.{intervals_tile}
use dota2_ob.Phase.PerSecond.{
  slots, slot, fill, per_second, rounds, length-put_range, length-slots, written, outside, inside,
}

module _ {N : Type 0} (eligible : ℤ) (i : ℕ) where
  -- Intervals after a second leave its slot alone.
  fill-before :
      (a b : ℤ) (ivs : List (Interval N)) (out : List (Option Phase))
      → Chain a ivs b
      → pos 0 ≤ℤ a
      → pos i <ℤ a
      → slot i (fill eligible ivs out) ≡ slot i out
  unfolding fill
  fill-before a b [] out c h before = refl
  fill-before a b (iv ∷ ivs) out c h before =
      let start : iv.start_game_second ≡ a = c.0 in
      fill-before iv.end_game_second b ivs (written eligible i iv out) c.3 (omega (int_laws, c.1))
        (omega (int_laws, c.1))
      ∙ outside eligible i iv out (subst (λ z. pos 0 ≤ℤ z) (sym start) h)
          (subst (λ z. pos i <ℤ z) (sym start) before)

  fill-inside :
      (a b : ℤ) (ivs : List (Interval N)) (out : List (Option Phase)) (iv : Interval N)
      → Chain a ivs b
      → pos 0 ≤ℤ a
      → Memᴰ iv ivs
      → iv.start_game_second ≤ℤ pos i
      → pos i <ℤ iv.end_game_second
      → pos i <ℤ eligible
      → i < length out
      → slot i (fill eligible ivs out) ≡ some (some iv.global_phase)
  unfolding fill
  fill-inside a b [] out iv c h m from to under room = elim m [ ]
  fill-inside a b (q ∷ ivs) out iv c h (Memᴰ.head e) from to under room =
      let start : q.start_game_second ≡ a = c.0 in
      fill-before q.end_game_second b ivs (written eligible i q out) c.3 (omega (int_laws, c.1))
        (subst (λ (r : Interval N). pos i <ℤ r.end_game_second) e to)
      ∙ inside eligible i q out (subst (λ z. pos 0 ≤ℤ z) (sym start) h)
          (subst (λ (r : Interval N). r.start_game_second ≤ℤ pos i) e from)
          (subst (λ (r : Interval N). pos i <ℤ r.end_game_second) e to) under room
      ∙ ap (λ (r : Interval N). some (some r.global_phase)) (sym e)
  fill-inside a b (q ∷ ivs) out iv c h (Memᴰ.tail m) from to under room =
      fill-inside q.end_game_second b ivs (written eligible i q out) iv c.3 (omega (int_laws, c.1))
        m from to under
        (subst (λ n. i < n)
          (sym (length-put_range (rounds eligible q) q.start_game_second q.global_phase out)) room)

per_second_inv :
    {N : Type 0} (o : Output N) (out : List (Option Phase))
    → per_second o ≡ some out
    → fill o.eligible_seconds o.intervals (slots (pos_part o.eligible_seconds)) ≡ out
unfolding per_second
per_second_inv o out h = elim (Bool-cases (ltb_ℤ o.eligible_seconds (pos 0))) [
  | inl negative ↦
      absurd (none-ne-some out (sym (if_first (ltb_ℤ o.eligible_seconds (pos 0)) _ _ negative) ∙ h))
  | inr fine ↦ some-injective _ out (sym (if_else (ltb_ℤ o.eligible_seconds (pos 0)) _ _ fine) ∙ h)
]

-- After any inputs in any order, if PerSecond makes a stream of the output of End, it gives every
-- eligible second inside an interval the phase of that interval.
pub per_second_agrees :
    {N : Type 0} (num_lt : N → N → Bool) (one : N) (inputs : List (Input N)) (game_end : ℤ)
    (out : List (Option Phase)) (iv : Interval N) (i : ℕ)
    → let o = finish num_lt one (feed_all num_lt one inputs (new_engine game_end)) in
      per_second o ≡ some out
      → Memᴰ iv o.intervals
      → iv.start_game_second ≤ℤ pos i
      → pos i <ℤ iv.end_game_second
      → pos i <ℤ o.eligible_seconds
      → slot i out ≡ some (some iv.global_phase)
per_second_agrees {N} num_lt one inputs game_end out iv i made m from to under =
    let o : Output N = finish num_lt one (feed_all num_lt one inputs (new_engine game_end)) in
    let n : ℕ = pos_part o.eligible_seconds in
    ap (slot i) (sym (per_second_inv o out made))
    ∙ fill-inside o.eligible_seconds i (pos 0) o.covered_seconds o.intervals (slots n) iv
        (intervals_tile num_lt one inputs game_end) (omega arith) m from to under
        (subst (λ k. i < k) (sym (length-slots n)) (omega int_laws))
