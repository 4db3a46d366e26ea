-- ===== src/Phase/Rules.antt =====
-- internal/replay/phase/phase.go: the rules by which a phase ends at a second.
use dota2_ob.Prelude.{
  ℕ, String, Bool, true, false, not, ◌&&◌, ◌||◌, [], ltb, leb, if◌then◌else◌, length, is_empty,
}
use dota2_ob.Prelude.Int.{ℤ, pos, ◌+ℤ◌, ◌-ℤ◌, ltb_ℤ, pos_part}
use dota2_ob.Phase.Windows.{Seconds, window_total, window_set, any_in_window}
use dota2_ob.Phase.{is_decisive, Engine}

abbrev count_in_window : Seconds String → ℤ → ℕ → ℕ
count_in_window by_second s window = window_total by_second (s -ℤ pos window +ℤ pos 1) window

module _ {N : Type 0} where
  -- Simplified in the source too: the tower rule drives the exit from the laning phase.
  team_structure_intact : String → ℤ → Engine N → Bool
  team_structure_intact side s e = true

  abbrev lane_structure_broken : ℤ → Engine N → Bool × Bool
  lane_structure_broken s e =
      if ltb_ℤ s (pos 180)
      then (false, false)
      else (not (team_structure_intact "radiant" s e), not (team_structure_intact "dire" s e))

  unfoldable pub should_enter_midgame : ℤ → Engine N → Bool
  unfolding team_structure_intact
  should_enter_midgame s e =
      if not (is_empty (e.tower_deaths s))
      then true
      else (let (radiant_broken, dire_broken) = lane_structure_broken s e in
          radiant_broken && dire_broken)

  major_fight : ℤ → Engine N → Bool
  unfolding window_set window_total ◌-ℤ◌
  major_fight s e =
      if ltb (length (window_set e.damage_heroes (s -ℤ pos 20) 21 [])) 6
      then false
      else leb 2 (window_total e.deaths (s -ℤ pos 30) 31)

  unfoldable pub should_enter_decisive : ℤ → Engine N → Bool
  unfolding major_fight
  should_enter_decisive s e =
      if leb 2 (count_in_window e.buybacks s 120)
      then true
      else if not (is_empty (e.rax_deaths s))
      then true
      else major_fight s e

  -- The seconds after the last decisive evidence, up to `s`.
  abbrev quiet_rounds : ℤ → Engine N → ℕ
  quiet_rounds s e = pos_part (s -ℤ e.last_decisive_evidence)

  unfoldable pub should_reset : ℤ → Engine N → Bool
  unfolding any_in_window ◌-ℤ◌ ◌+ℤ◌
  should_reset s e =
      if not (is_decisive e.current)
      then false
      else if ltb_ℤ (s -ℤ e.last_decisive_evidence) (pos 30)
      then false
      else not (
          any_in_window e.tower_deaths (e.last_decisive_evidence +ℤ pos 1) (quiet_rounds s e)
          || any_in_window e.rax_deaths (e.last_decisive_evidence +ℤ pos 1) (quiet_rounds s e)
          || any_in_window e.deaths (e.last_decisive_evidence +ℤ pos 1) (quiet_rounds s e))
