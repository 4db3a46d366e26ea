-- ===== src/Clock.antt =====
-- internal/replay/clock/clock.go: the game clock, calibrated from the observed transitions.
-- float64 and its operations are the parameter `FloatOps`: no proof needs a law of them. An int64 or
-- uint32 that is only stored or compared is an integer or a number. A pointer is an Option.
pub mod First
pub mod Gate
pub mod Names
pub mod Tests
use dota2_ob.Prelude.{
  ℕ, String, Bool, true, false, ◌&&◌, Option, none, some, List, [], ◌∷◌, ◌++◌, ◌==◌, if◌then◌else◌,
}
use dota2_ob.Prelude.Int.{ℤ, pos, leb_ℤ, eqb_ℤ}

pub record FloatOps (N : Type 0) : Type 0 where
  pub add : N → N → N
  pub sub : N → N → N
  pub mul : N → N → N
  pub div : N → N → N
  -- math.Max, math.Abs, and the tests <=, < and ==
  pub max : N → N → N
  pub abs : N → N
  pub le : N → N → Bool
  pub lt : N → N → Bool
  pub eq : N → N → Bool
  -- float64 of an integer, and int64 of a float64
  pub of_int : ℤ → N
  pub to_int : N → ℤ
  -- 0, 0.5, 2.0, 0.001 and 30.0
  pub zero : N
  pub half : N
  pub two : N
  pub thousandth : N
  pub tick_rate : N

-- DOTA_GAMERULES_STATE
abbrev pub state_init : ℤ
state_init = pos 0

abbrev pub state_wait_for_players_to_load : ℤ
state_wait_for_players_to_load = pos 1

abbrev pub state_hero_selection : ℤ
state_hero_selection = pos 2

abbrev pub state_strategy_time : ℤ
state_strategy_time = pos 3

abbrev pub state_pregame : ℤ
state_pregame = pos 4

abbrev pub state_game_in_progress : ℤ
state_game_in_progress = pos 5

abbrev pub state_postgame : ℤ
state_postgame = pos 6

abbrev pub state_disconnect : ℤ
state_disconnect = pos 7

abbrev pub state_team_showcase : ℤ
state_team_showcase = pos 8

abbrev pub state_custom_game_setup : ℤ
state_custom_game_setup = pos 9

abbrev pub state_wait_for_map_to_load : ℤ
state_wait_for_map_to_load = pos 10

abbrev pub state_player_draft : ℤ
state_player_draft = pos 12

abbrev pub calibrated : String
calibrated = "calibrated"

abbrev pub unavailable : String
unavailable = "unavailable"

abbrev pub fail_closed : String
fail_closed = "fail_closed"

pub record Transition (N : Type 0) : Type 0 where
  pub state : ℤ
  pub combat_ts : N
  pub tick : ℕ

pub record Clock (N : Type 0) : Type 0 where
  pub schema_version : String
  pub rule_version : String
  pub state : String
  pub reason : String
  pub transitions : List (Transition N)
  pub anchor_combat_ts : N
  pub anchor_tick : ℕ
  pub end_combat_ts : Option N
  pub end_tick : Option ℕ
  pub pregame_seconds : N
  pub game_duration_seconds : Option N
  pub playback_seconds : N
  pub public_duration_seconds : Option ℤ
  pub duration_delta_seconds : Option N
  pub duration_gate_ok : Bool
  pub game_start_unix : Option ℤ
  pub game_end_unix : Option ℤ
  pub missing : List String
  pub event_alignment_errors : List N

pub record BuildOptions (N : Type 0) : Type 0 where
  pub public_duration_seconds : ℤ
  pub end_time_unix : ℕ
  pub playback_seconds : N

-- The loop that stops at the first transition to a state.
unfoldable pub first_to : {N : Type 0} → ℤ → List (Transition N) → Option (Transition N)
first_to s [] = none
first_to s (t ∷ ts) = let later = first_to s ts in if eqb_ℤ t.state s then some t else later

module _ {N : Type 0} (f : FloatOps N) where
  abbrev pub game_second_of_combat_ts : Clock N → N → N
  game_second_of_combat_ts c ts = f.sub ts c.anchor_combat_ts

  abbrev pub game_second_of_tick : Clock N → ℕ → N
  game_second_of_tick c tick =
      f.div (f.sub (f.of_int (pos tick)) (f.of_int (pos c.anchor_tick))) f.tick_rate

  abbrev pub initial : List (Transition N) → BuildOptions N → Clock N
  initial transitions opts = record {
    schema_version = "replay.clock.v1";
    rule_version = "ti2026.phase.v1";
    state = fail_closed;
    reason = "no_game_in_progress_anchor";
    transitions = transitions;
    anchor_combat_ts = f.zero;
    anchor_tick = 0;
    end_combat_ts = none;
    end_tick = none;
    pregame_seconds = f.zero;
    game_duration_seconds = none;
    playback_seconds = opts.playback_seconds;
    public_duration_seconds = some opts.public_duration_seconds;
    duration_delta_seconds = none;
    duration_gate_ok = false;
    game_start_unix = none;
    game_end_unix = none;
    missing = [];
    event_alignment_errors = [];
  }

  abbrev pub anchored : Option (Transition N) → Clock N → Clock N
  anchored none c = c
  anchored (some t) c = record c { anchor_combat_ts = t.combat_ts; anchor_tick = t.tick }

  abbrev pub no_anchor : Clock N → Bool
  no_anchor c = c.anchor_tick == 0 && f.eq c.anchor_combat_ts f.zero

  abbrev pub duration : N → Clock N → N
  duration end_ts c = f.sub end_ts c.anchor_combat_ts

  abbrev pub delta_of : BuildOptions N → N → N
  delta_of opts dur = f.sub (f.of_int opts.public_duration_seconds) dur

  abbrev pub tolerance : BuildOptions N → N
  tolerance opts = f.max f.two (f.mul (f.of_int opts.public_duration_seconds) f.thousandth)

  abbrev pub within : BuildOptions N → N → Bool
  within opts dur = f.le (f.abs (delta_of opts dur)) (tolerance opts)

  -- The clock once its duration `dur` is known to be positive.
  abbrev pub measured : BuildOptions N → N → Clock N → Clock N
  measured opts dur c =
      let game_start =
        f.add (f.sub (f.of_int (pos opts.end_time_unix)) opts.playback_seconds)
          c.anchor_combat_ts in
      record c {
        game_duration_seconds = some dur;
        pregame_seconds = c.anchor_combat_ts;
        duration_delta_seconds = some (delta_of opts dur);
        duration_gate_ok = within opts dur;
        game_start_unix = some (f.to_int game_start);
        game_end_unix = some (f.to_int (f.add game_start dur));
      }

  abbrev pub gated : BuildOptions N → N → Clock N → Clock N
  gated opts dur c =
      if within opts dur
      then record c { state = calibrated; reason = "anchored_at_game_in_progress" }
      else record c { state = fail_closed; reason = "duration_mismatch_exceeds_tolerance" }

  abbrev pub ended_at : BuildOptions N → Option (Transition N) → Clock N → Clock N
  ended_at opts none c = record c {
    missing = c.missing ++ "post_game_transition" ∷ [];
    state = unavailable;
    reason = "game_end_missing_right_censored";
  }
  ended_at opts (some t) c =
      let c' : Clock N = record c { end_combat_ts = some t.combat_ts; end_tick = some t.tick } in
      if f.le (duration t.combat_ts c') f.zero
      then record c' { reason = "non_positive_duration" }
      else gated opts (duration t.combat_ts c') (measured opts (duration t.combat_ts c') c')

  -- Build
  unfoldable pub build : List (Transition N) → BuildOptions N → Clock N
  unfolding first_to
  build transitions opts =
      if leb_ℤ opts.public_duration_seconds (pos 0)
      then record (initial transitions opts) { reason = "public_duration_missing" }
      else (let c : Clock N =
            anchored (first_to state_game_in_progress transitions) (initial transitions opts) in
          if no_anchor c
          then record c { reason = "game_in_progress_anchor_missing" }
          else ended_at opts (first_to state_postgame transitions) c)
