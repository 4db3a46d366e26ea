-- ===== src/Phase/Stream.antt =====
-- A whole stream of inputs, in any order, and End.
use mathlib.Core.Path.{subst}
use dota2_ob.Prelude.{
  ◌≡◌, refl, sym, ap, inl, inr, Bool-cases, Bool, true, false, Option, none, some, List, [], ◌∷◌,
  arith, if◌then◌else◌, if_first, if_else,
}
use dota2_ob.Prelude.Int.{ℤ, pos, ◌+ℤ◌, ltb_ℤ, leb_ℤ, int_laws, eq_of_parts, pos_part, neg_part}
use dota2_ob.Phase.{
  Phase, ended, InputKind, hero_death, hero_buyback, tower_death, rax_death, ancient_death,
  hero_position, damage, respawn, Input, Interval, Engine, new_engine,
}
use dota2_ob.Phase.Steps.{
  close_interval, finalize_second, take_input, advance_to, feed, feed_all, early_end, close_final,
  end_state, finish, result, covered,
}
use dota2_ob.Phase.Tiling.{Chain, covered-Chain, Running}
use dota2_ob.Phase.Finalize.{close_interval-Chain}
use dota2_ob.Phase.Tiled.{
  floor, Closed, TiledBy, Tiled, SameCourse, new_engine-Tiled, TiledBy-mono, SameCourse-TiledBy,
  with_last-TiledBy, floor-mono, finalize_second-TiledBy, finalize_second-past,
}

module _ {N : Type 0} (num_lt : N → N → Bool) (one : N) where
  pub take_input-SameCourse :
      (k : InputKind) (i : Input N) (e : Engine N)
      → SameCourse e (take_input num_lt one k i e)
        × ((take_input num_lt one k i e).last_second ≡ e.last_second)
  unfolding take_input
  take_input-SameCourse hero_death i e = ground arith
  take_input-SameCourse hero_buyback i e = ground arith
  take_input-SameCourse tower_death i e = ground arith
  take_input-SameCourse rax_death i e = ground arith
  take_input-SameCourse ancient_death i e = ground arith
  take_input-SameCourse hero_position i e = ground arith
  take_input-SameCourse damage i e = ground arith
  take_input-SameCourse respawn i e = ground arith

  take_input-Tiled :
      (k : InputKind) (i : Input N) (e : Engine N) → Tiled e → Tiled (take_input num_lt one k i e)
  take_input-Tiled k i e t =
      let (same, last) = take_input-SameCourse k i e in
      subst (λ z. TiledBy (floor z) (take_input num_lt one k i e)) (sym last)
        (SameCourse-TiledBy (floor e.last_second) e (take_input num_lt one k i e) same t)

  advance_to-Tiled : (s : ℤ) (e : Engine N) → Tiled e → Tiled (advance_to num_lt one s e)
  unfolding advance_to
  advance_to-Tiled s e t = elim (Bool-cases (ltb_ℤ e.last_second s)) [
    | inl later ↦ rw later (
        with_last-TiledBy (floor s) s (finalize_second num_lt one e.last_second e) (
          TiledBy-mono (floor e.last_second) (floor s) (finalize_second num_lt one e.last_second e)
            (floor-mono e.last_second s (omega int_laws))
            (finalize_second-TiledBy num_lt one e.last_second e t)))
    | inr same ↦ rw same t
  ]

  if-Tiled : (b : Bool) (x y : Engine N) → Tiled x → Tiled y → Tiled (if b then x else y)
  if-Tiled true x y hx hy = hx
  if-Tiled false x y hx hy = hy

  feed-Tiled : (i : Input N) (e : Engine N) → Tiled e → Tiled (feed num_lt one i e)
  unfolding feed
  feed-Tiled i e t =
      let e' : Engine N = advance_to num_lt one i.game_second e in
      let t' : Tiled e' = advance_to-Tiled i.game_second e t in
      if-Tiled (ltb_ℤ i.game_second (pos 0)) e _ t (
        if-Tiled e.has_ended e _ t (
          if-Tiled (ltb_ℤ e'.game_end_second i.game_second) e' _ t'
            (take_input-Tiled i.kind i e' t')))

  feed_all-Tiled : (is : List (Input N)) (e : Engine N) → Tiled e → Tiled (feed_all num_lt one is e)
  unfolding feed_all
  feed_all-Tiled [] e t = t
  feed_all-Tiled (i ∷ is) e t = feed_all-Tiled is (feed num_lt one i e) (feed-Tiled i e t)

  early_end-Tiled :
      (a : Option ℤ) (e : Engine N)
      → e.ancient_death_second ≡ a
      → Tiled e
      → Tiled (early_end num_lt one a e)
  early_end-Tiled none e h t = t
  early_end-Tiled (some d) e h t =
      if-Tiled (ltb_ℤ d e.game_end_second) _ e
        (with_last-TiledBy (floor d) d (finalize_second num_lt one e.last_second e)
          (finalize_second-past num_lt one e.last_second d e h t))
        t

  close_interval-ends :
      (end b : ℤ) (p : Phase) (e : Engine N)
      → Running b e
      → (m : ℤ) × Chain (pos 0) (close_interval num_lt one end p e).intervals m
  unfolding close_interval
  close_interval-ends end b p e r = elim (Bool-cases (leb_ℤ end e.current_start)) [
    | inl early ↦ rw early (e.current_start, r.chain)
    | inr late ↦
        let m : Running e.current_start e = record {
          chain = r.chain;
          from_zero = r.from_zero;
          bounded = omega arith;
          phase = r.phase;
          going = r.going;
        } in
        (end, close_interval-Chain num_lt one end e.current_start p e m (omega int_laws))
  ]

  close_final-Closed : (b : ℤ) (e : Engine N) → TiledBy b e → Closed (close_final num_lt one e)
  close_final-Closed b e (inr (over, c)) =
      subst Closed (sym (if_first e.has_ended e _ over)) (over, c)
  close_final-Closed b e (inl r) =
      subst Closed (sym (if_else e.has_ended e _ r.going))
        (refl, close_interval-ends (e.game_end_second +ℤ pos 1) b ended e r)

  end_state-Closed : (e : Engine N) → Tiled e → Closed (end_state num_lt one e)
  unfolding end_state
  end_state-Closed e (inr closed) = subst Closed (sym (if_first e.has_ended e _ closed.0)) closed
  end_state-Closed e (inl r) =
      let e' : Engine N = early_end num_lt one e.ancient_death_second e in
      subst Closed (sym (if_else e.has_ended e _ r.going)) (
        close_final-Closed (floor e'.last_second) (finalize_second num_lt one e'.last_second e') (
          finalize_second-TiledBy num_lt one e'.last_second e'
            (early_end-Tiled e.ancient_death_second e refl (inl r))))

  pub covered_of_Chain :
      (is : List (Interval N)) (m : ℤ) → Chain (pos 0) is m → covered num_lt one is (pos 0) ≡ m
  covered_of_Chain is m c =
      let sums : covered num_lt one is (pos 0) +ℤ pos 0 ≡ pos 0 +ℤ m =
        covered-Chain num_lt one (pos 0) m (pos 0) is c in
      eq_of_parts (covered num_lt one is (pos 0)) m
        (omega (int_laws, ap pos_part sums, ap neg_part sums))

  -- After any inputs in any order, the intervals that End returns tile the time from 0 up to some
  -- second without gap or overlap, each of a positive length and of an official phase; the count of
  -- covered seconds is that second.
  pub intervals_tile :
      (inputs : List (Input N)) (game_end : ℤ)
      → Chain
          (pos 0)
          (finish num_lt one (feed_all num_lt one inputs (new_engine game_end))).intervals
          (finish num_lt one (feed_all num_lt one inputs (new_engine game_end))).covered_seconds
  unfolding finish result
  intervals_tile inputs game_end =
      let (over, (m, c)) =
        end_state-Closed (feed_all num_lt one inputs (new_engine game_end))
          (feed_all-Tiled inputs (new_engine game_end) (new_engine-Tiled game_end)) in
      let e : Engine N = end_state num_lt one (feed_all num_lt one inputs (new_engine game_end)) in
      subst (Chain (pos 0) e.intervals) (sym (covered_of_Chain e.intervals m c)) c
