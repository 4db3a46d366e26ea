-- ===== src/Clock/Tests.antt =====
-- The clock of internal/replay/clock/clock.go, with whole seconds for float64.
use mathlib.Core.Logic.{◌↔◌}
use dota2_ob.Prelude.{ℕ, ◌*◌, ◌≡◌, refl, List, [], ◌∷◌, if◌then◌else◌}
use dota2_ob.Prelude.Int.{ℤ, pos, pos_part, ◌+ℤ◌, ◌-ℤ◌, leb_ℤ, ltb_ℤ, eqb_ℤ}
use dota2_ob.Clock.{
  FloatOps, Transition, BuildOptions, calibrated, build, state_pregame, state_game_in_progress,
  state_postgame,
}
use dota2_ob.Clock.Gate.{Agrees, calibrated_iff}
use dota2_ob.Clock.Names.{state_name}
use dota2_ob.Clock.{state_player_draft}
use dota2_ob.Prelude.Decimal.{format_int}

abbrev pub seconds : FloatOps ℤ
seconds = record {
  add = λ a b. a +ℤ b;
  sub = λ a b. a -ℤ b;
  mul = λ a b. pos (pos_part a * pos_part b);
  div = λ a b. a;
  max = λ a b. if leb_ℤ a b then b else a;
  abs = λ a. pos (pos_part a);
  le = leb_ℤ;
  lt = ltb_ℤ;
  eq = eqb_ℤ;
  of_int = λ n. n;
  to_int = λ n. n;
  zero = pos 0;
  half = pos 1;
  two = pos 2;
  thousandth = pos 0;
  tick_rate = pos 30;
}

abbrev to : ℤ → ℕ → Transition ℤ
to s second = record { state = s; combat_ts = pos second; tick = 30 * second }

abbrev observed : List (Transition ℤ)
observed = to state_pregame 10 ∷ to state_game_in_progress 100 ∷ to state_postgame 2100 ∷ []

abbrev public : BuildOptions ℤ
public = record {
  public_duration_seconds = pos 2001;
  end_time_unix = 9000;
  playback_seconds = pos 2200;
}

observed-Agrees :
    Agrees seconds public observed (to state_game_in_progress 100) (to state_postgame 2100)
unfolding ◌-ℤ◌
observed-Agrees = record {
  announced = refl;
  is_anchor = record {
    before = to state_pregame 10 ∷ [];
    after = to state_postgame 2100 ∷ [];
    split = refl;
    none_before = (refl, tt);
    here = refl;
  };
  stamped = refl;
  is_end = record {
    before = to state_pregame 10 ∷ to state_game_in_progress 100 ∷ [];
    after = [];
    split = refl;
    none_before = (refl, (refl, tt));
    here = refl;
  };
  positive = refl;
  agrees = refl;
}

calibrated_iff_example :
    ((build seconds observed public).state ≡ calibrated)
    ↔ ((a : Transition ℤ) × (e : Transition ℤ) × Agrees seconds public observed a e)
calibrated_iff_example = calibrated_iff seconds public observed refl

-- A state has its name, and another value is written out.
state_name_run :
    (state_name state_player_draft ≡ "player_draft") × (state_name (pos 11) ≡ "state_11")
unfolding state_name format_int
state_name_run = (refl, refl)
