-- ===== src/Phase/Steps.antt =====
-- internal/replay/phase/phase.go: Feed, finalizeSecond, the transitions, and End.
use dota2_ob.Prelude.{
  ◌+◌, Bool, true, false, ◌&&◌, Option, none, some, List, [], ◌∷◌, ◌++◌, if◌then◌else◌, lookup,
  insert, str_eq,
}
use dota2_ob.Prelude.Int.{ℤ, pos, ◌+ℤ◌, ◌-ℤ◌, ltb_ℤ, leb_ℤ, eqb_ℤ}
use dota2_ob.Phase.Windows.{put_at, add_key}
use dota2_ob.Phase.{
  Phase, laning, midgame, decisive, ended, official, phase_eq, is_decisive, InputKind, hero_death,
  hero_buyback, tower_death, rax_death, ancient_death, hero_position, damage, respawn, Input,
  Interval, ResetEpisode, Output, phase_rule_version, phase_schema, Engine, max_int, second_or_zero,
  samples_or_none, put_sample,
}
use dota2_ob.Phase.Anchors.{compute_anchors}
use dota2_ob.Phase.Rules.{should_enter_midgame, should_enter_decisive, should_reset}

module _ {N : Type 0} (num_lt : N → N → Bool) (one : N) where
  -- Deterministic in this version.
  abbrev pub confidence : Engine N → N
  confidence e = one

  abbrev pub interval_of : ℤ → Engine N → Interval N
  interval_of end e = record {
    start_game_second = e.current_start;
    end_game_second = end;
    global_phase = e.current;
    round_index = e.round_index;
    confidence = confidence e;
    evidence_seqs = e.evidence;
    missing_inputs = [];
    rule_version = phase_rule_version;
  }

  abbrev pub reset_of : ℤ → Engine N → ResetEpisode
  reset_of end e = record {
    start_game_second = end;
    end_game_second = end +ℤ pos 90;
    reason = "no_major_fight_or_building_damage_for_30s";
    evidence_seqs = e.evidence;
    rule_version = phase_rule_version;
  }

  unfoldable pub close_interval : ℤ → Phase → Engine N → Engine N
  unfolding ◌+ℤ◌
  close_interval end next_phase e = if leb_ℤ end e.current_start then e else record e {
    intervals = e.intervals ++ interval_of end e ∷ [];
    resets =
        if is_decisive e.current && phase_eq next_phase midgame
        then e.resets ++ reset_of end e ∷ []
        else e.resets;
    evidence = [];
  }

  unfoldable pub transition : ℤ → Phase → Engine N → Engine N
  transition at_second to e =
      if phase_eq e.current to
      then e
      else (let e' : Engine N = close_interval at_second to e in
          record e' {
            round_index = if is_decisive to then e'.round_index + 1 else e'.round_index;
            current = to;
            current_start = at_second;
          })

  abbrev pub ended_by : ℤ → Option ℤ → Bool
  ended_by s none = false
  ended_by s (some d) = leb_ℤ d s

  -- The switch on the current phase.
  abbrev pub evaluate : ℤ → Phase → Engine N → Engine N
  evaluate s laning e = if should_enter_midgame s e then transition s midgame e else e
  evaluate s midgame e = if should_enter_decisive s e then transition s decisive e else e
  evaluate s decisive e = if should_reset s e then transition s midgame e else e
  evaluate s _ e = e

  unfoldable pub finalize_second : ℤ → Engine N → Engine N
  unfolding ◌+ℤ◌ compute_anchors
  finalize_second s e =
      if e.has_ended
      then e
      else if ltb_ℤ s (pos 0)
      then e
      else (let e' : Engine N = compute_anchors num_lt e.positions e in
          if ended_by s e'.ancient_death_second
          then record (close_interval (s +ℤ pos 1) ended e') { has_ended = true }
          else evaluate s e'.current e')

  abbrev pub mark_evidence : Input N → Engine N → Engine N
  mark_evidence i e = record e {
    last_decisive_evidence = max_int e.last_decisive_evidence i.game_second;
    evidence = e.evidence ++ i.seq ∷ [];
  }

  -- The switch on the kind of an input.
  unfoldable pub take_input : InputKind → Input N → Engine N → Engine N
  take_input hero_death i e = mark_evidence i (record e {
    deaths = put_at i.game_second (e.deaths i.game_second ++ i.account ∷ []) e.deaths;
    damage_heroes =
        put_at i.game_second (add_key i.account (e.damage_heroes i.game_second)) e.damage_heroes;
  })
  take_input hero_buyback i e = mark_evidence i (record e {
    buybacks = put_at i.game_second (e.buybacks i.game_second ++ i.account ∷ []) e.buybacks;
  })
  take_input tower_death i e = mark_evidence i (record e {
    tower_deaths =
        put_at i.game_second (e.tower_deaths i.game_second ++ i.account ∷ []) e.tower_deaths;
  })
  take_input rax_death i e = mark_evidence i (record e {
    rax_deaths = put_at i.game_second (e.rax_deaths i.game_second ++ i.account ∷ []) e.rax_deaths;
  })
  take_input ancient_death i e = elim e.ancient_death_second [
    | none ↦ record e {
      ancient_death_second = some i.game_second;
      evidence = e.evidence ++ i.seq ∷ [];
    }
    | some _ ↦ e
  ]
  take_input hero_position i e = record e {
    positions =
        insert i.account
          (put_sample i.game_second (record { x = i.x; y = i.y })
            (samples_or_none (lookup i.account e.positions)))
          e.positions;
    anchor_second =
        if eqb_ℤ (second_or_zero (lookup i.account e.anchor_second)) (pos 0)
        then insert i.account i.game_second e.anchor_second
        else e.anchor_second;
  }
  take_input respawn i e = record e {
    respawn_by_second = insert i.account i.game_second e.respawn_by_second;
    last_alive_second = insert i.account true e.last_alive_second;
  }
  take_input damage i e = record e {
    damage_heroes =
        if str_eq i.account ""
        then e.damage_heroes
        else put_at i.game_second (add_key i.account (e.damage_heroes i.game_second))
            e.damage_heroes;
    evidence = e.evidence ++ i.seq ∷ [];
  }

  -- The part of Feed that moves on to a later second.
  unfoldable pub advance_to : ℤ → Engine N → Engine N
  unfolding finalize_second
  advance_to second e =
      if ltb_ℤ e.last_second second
      then record (finalize_second e.last_second e) { last_second = second }
      else e

  unfoldable pub feed : Input N → Engine N → Engine N
  unfolding advance_to take_input
  feed i e =
      if ltb_ℤ i.game_second (pos 0)
      then e
      else if e.has_ended
      then e
      else (let e' : Engine N = advance_to i.game_second e in
          if ltb_ℤ e'.game_end_second i.game_second then e' else take_input i.kind i e')

  unfoldable pub feed_all : List (Input N) → Engine N → Engine N
  unfolding feed
  feed_all [] e = e
  feed_all (i ∷ is) e = feed_all is (feed i e)

  unfoldable pub covered : List (Interval N) → ℤ → ℤ
  covered [] total = total
  covered (i ∷ is) total = covered is (
      if official i.global_phase
      then total +ℤ (i.end_game_second -ℤ i.start_game_second)
      else total)

  abbrev pub eligible : ℤ → Option ℤ → ℤ
  eligible game_end none = game_end +ℤ pos 1
  eligible game_end (some d) =
      if ltb_ℤ (d +ℤ pos 1) (game_end +ℤ pos 1) then d +ℤ pos 1 else game_end +ℤ pos 1

  unfoldable pub result : Engine N → Output N
  unfolding covered ◌+ℤ◌ ◌-ℤ◌ official
  result e = record {
    schema_version = phase_schema;
    rule_version = phase_rule_version;
    state = "complete";
    reason = "phase_stream_emitted";
    intervals = e.intervals;
    resets = e.resets;
    missing_inputs = elim e.ancient_death_second [
      | none ↦ "game_end_missing_right_censored" ∷ []
      | some _ ↦ []
    ];
    eligible_seconds = eligible e.game_end_second e.ancient_death_second;
    covered_seconds = covered e.intervals (pos 0);
  }

  -- The state in which End leaves the engine.
  abbrev pub early_end : Option ℤ → Engine N → Engine N
  early_end none e = e
  early_end (some d) e =
      if ltb_ℤ d e.game_end_second
      then record (finalize_second e.last_second e) { last_second = d }
      else e

  abbrev pub close_final : Engine N → Engine N
  close_final e =
      if e.has_ended
      then e
      else record (close_interval (e.game_end_second +ℤ pos 1) ended e) { has_ended = true }

  unfoldable pub end_state : Engine N → Engine N
  unfolding finalize_second ◌+ℤ◌
  end_state e =
      if e.has_ended
      then e
      else (let e' : Engine N = early_end e.ancient_death_second e in
          close_final (finalize_second e'.last_second e'))

  -- End
  unfoldable pub finish : Engine N → Output N
  unfolding end_state result
  finish e = result (end_state e)
