-- ===== src/Phase/Tests.antt =====
-- A few inputs through the engine of internal/replay/phase/phase.go, with numbers for coordinates.
use mathlib.Core.Path.{subst}
use mathlib.Core.List.{Memᴰ}
use dota2_ob.Phase.PerSecond.{per_second, fill, put_range, slot}
use dota2_ob.Phase.Exact.{covered-eq-eligible}
use dota2_ob.Phase.Agreement.{per_second_agrees}
use dota2_ob.Prelude.{◌≡◌, sym, Option, some, lookup, insert, ℕ, refl, List, [], ◌∷◌, arith, ltb}
use dota2_ob.Prelude.Int.{ℤ, ◌<ℤ◌, ◌+ℤ◌, ◌-ℤ◌, pos}
use dota2_ob.Phase.{
  InputKind, hero_death, hero_buyback, tower_death, ancient_death, Input, Engine, Phase, laning,
  midgame, Interval, new_engine, official,
}
use dota2_ob.Phase.Steps.{
  finalize_second, feed_all, finish, result, end_state, feed, advance_to, take_input,
  close_interval, transition, covered,
}
use dota2_ob.Phase.Anchors.{compute_anchors}
use dota2_ob.Phase.Rules.{should_enter_midgame, should_enter_decisive, should_reset}
use dota2_ob.Phase.Windows.{
  window_set, window_total, any_in_window, add_keys, add_key, contains, put_at,
}
use dota2_ob.Phase.Tiling.{Chain, Running}
use dota2_ob.Phase.Stream.{intervals_tile}

abbrev at : ℕ → InputKind → Input ℕ
at second kind = record {
  game_second = pos second;
  seq = pos second;
  kind = kind;
  side = "radiant";
  account = "1";
  value = 0;
  x = 0;
  y = 0;
  respawn_sec = 0;
}

abbrev inputs : List (Input ℕ)
inputs = at 5 hero_death ∷ at 3 tower_death ∷ at 700 hero_death ∷ at 720 ancient_death ∷ []

intervals_tile_example :
    Chain
      (pos 0)
      (finish ltb 1 (feed_all ltb 1 inputs (new_engine (pos 730)))).intervals
      (finish ltb 1 (feed_all ltb 1 inputs (new_engine (pos 730)))).covered_seconds
intervals_tile_example = intervals_tile ltb 1 inputs (pos 730)

abbrev opening : Engine ℕ
opening = new_engine (pos 730)

opening-Running : Running (pos 12) opening
unfolding new_engine official
opening-Running = record {
  chain = refl;
  from_zero = omega arith;
  bounded = omega arith;
  phase = refl;
  going = refl;
}

abbrev short : List (Input ℕ)
short = at 2 tower_death ∷ at 4 hero_death ∷ []

abbrev interval : ℤ → ℤ → Phase → ℤ → Interval ℕ
interval start end phase seq = record {
  start_game_second = start;
  end_game_second = end;
  global_phase = phase;
  round_index = 0;
  confidence = 1;
  evidence_seqs = seq ∷ [];
  missing_inputs = [];
  rule_version = "ti2026.phase.v1";
}

short_intervals :
    (finish ltb 1 (feed_all ltb 1 short (new_engine (pos 5)))).intervals
    ≡ interval (pos 0) (pos 2) laning (pos 2) ∷ interval (pos 2) (pos 6) midgame (pos 4) ∷ []
unfolding finish result end_state finalize_second feed_all feed advance_to take_input close_interval
    transition covered official compute_anchors should_enter_midgame should_enter_decisive
    should_reset window_set window_total any_in_window add_keys add_key contains put_at lookup
    insert ◌+ℤ◌ ◌-ℤ◌ new_engine
short_intervals = refl

abbrev short_seconds : List (Option Phase)
short_seconds =
    some laning ∷ some laning ∷ some midgame ∷ some midgame ∷ some midgame ∷ some midgame ∷ []

short-per_second :
    per_second (finish ltb 1 (feed_all ltb 1 short (new_engine (pos 5)))) ≡ some short_seconds
unfolding per_second fill put_range finish result end_state finalize_second feed_all feed advance_to
    take_input close_interval transition covered official compute_anchors should_enter_midgame
    should_enter_decisive should_reset window_set window_total any_in_window add_keys add_key
    contains put_at lookup insert ◌+ℤ◌ ◌-ℤ◌ new_engine
short-per_second = refl

short_eligible : (finish ltb 1 (feed_all ltb 1 short (new_engine (pos 5)))).eligible_seconds ≡ pos 6
unfolding finish result end_state finalize_second feed_all feed advance_to take_input close_interval
    transition covered official compute_anchors should_enter_midgame should_enter_decisive
    should_reset window_set window_total any_in_window add_keys add_key contains put_at lookup
    insert ◌+ℤ◌ ◌-ℤ◌ new_engine
short_eligible = refl

per_second_agrees_example : slot 3 short_seconds ≡ some (some midgame)
per_second_agrees_example =
    per_second_agrees ltb 1 short (pos 5) short_seconds (interval (pos 2) (pos 6) midgame (pos 4)) 3
      short-per_second
      (subst (Memᴰ (interval (pos 2) (pos 6) midgame (pos 4))) (sym short_intervals)
        (Memᴰ.tail (Memᴰ.head refl)))
      (omega arith) (omega arith) (subst (λ z. pos 3 <ℤ z) (sym short_eligible) (omega arith))

-- An input after the end of the game resets a decisive phase past the end, and more seconds are
-- counted as covered than as eligible.
abbrev overlong : List (Input ℕ)
overlong = at 2 tower_death ∷ at 1000 hero_buyback ∷ at 1000 hero_buyback ∷ at 1045 hero_death ∷ []

overlong_covered :
    let o = finish ltb 1 (feed_all ltb 1 overlong (new_engine (pos 1010))) in
    (o.covered_seconds ≡ pos 1045) × (o.eligible_seconds ≡ pos 1011)
unfolding finish result end_state finalize_second feed_all feed advance_to take_input close_interval
    transition covered official compute_anchors should_enter_midgame should_enter_decisive
    should_reset window_set window_total any_in_window add_keys add_key contains put_at lookup
    insert ◌+ℤ◌ ◌-ℤ◌ new_engine
overlong_covered = (refl, refl)

covered-eq-eligible_example :
    (finish ltb 1 (feed_all ltb 1 short (new_engine (pos 5)))).covered_seconds
    ≡ (finish ltb 1 (feed_all ltb 1 short (new_engine (pos 5)))).eligible_seconds
covered-eq-eligible_example =
    covered-eq-eligible ltb 1 short (pos 5) (omega arith)
      (omega arith, omega arith, (omega arith, omega arith, tt))
