-- ===== src/Clock/Names.antt =====
-- StateName of internal/replay/clock/clock.go.
use dota2_ob.Prelude.{String, if◌then◌else◌}
use dota2_ob.Prelude.Int.{ℤ, eqb_ℤ}
use dota2_ob.Prelude.Decimal.{format_int}
use dota2_ob.Clock.{
  state_init, state_wait_for_players_to_load, state_hero_selection, state_strategy_time,
  state_pregame, state_game_in_progress, state_postgame, state_disconnect, state_team_showcase,
  state_custom_game_setup, state_wait_for_map_to_load, state_player_draft,
}

-- StateName
unfoldable pub state_name : ℤ → String
unfolding format_int
state_name s =
    if eqb_ℤ s state_init
    then "init"
    else if eqb_ℤ s state_wait_for_players_to_load
    then "wait_for_players_to_load"
    else if eqb_ℤ s state_hero_selection
    then "hero_selection"
    else if eqb_ℤ s state_strategy_time
    then "strategy_time"
    else if eqb_ℤ s state_pregame
    then "pre_game"
    else if eqb_ℤ s state_game_in_progress
    then "game_in_progress"
    else if eqb_ℤ s state_postgame
    then "post_game"
    else if eqb_ℤ s state_disconnect
    then "disconnect"
    else if eqb_ℤ s state_team_showcase
    then "team_showcase"
    else if eqb_ℤ s state_custom_game_setup
    then "custom_game_setup"
    else if eqb_ℤ s state_wait_for_map_to_load
    then "wait_for_map_to_load"
    else if eqb_ℤ s state_player_draft
    then "player_draft"
    else Prim.Native.String.◌++◌ "state_" (format_int s)
