-- ===== src/Facts.antt =====
-- internal/replay/facts/facts.go: the normalized facts of a raw stream.
-- float64 is the parameter `FloatOps`, json.Marshal a parameter, and the callback that takes the facts
-- a test on what it took before. Counters are natural numbers. A nil slice and an empty one are both
-- the empty list. The maps that the code fills and never reads are left out.
pub mod Payloads
pub mod Buildings
pub mod Accounts
pub mod Drafts
pub mod Numbering
pub mod Samples
pub mod Totals
pub mod Kept
pub mod Counted
pub mod Attributed
mod Tests
use dota2_ob.Prelude.{
  ℕ, suc, ◌+◌, ◌*◌, String, Bool, true, false, not, ◌&&◌, Option, none, some, List, [], ◌∷◌, ◌++◌,
  ◌==◌, ltb, if◌then◌else◌, length, take, is_none, is_some, lookup, insert, str_eq,
}
use dota2_ob.Prelude.Int.{ℤ, pos, negsuc, ◌+ℤ◌, ◌-ℤ◌, ltb_ℤ, eqb_ℤ}
use dota2_ob.Prelude.Sort.{sort_strings}
use dota2_ob.Clock.{FloatOps, game_second_of_combat_ts, game_second_of_tick}
use dota2_ob.Raw.{Event, Read, Combat, HeroState, kind_combat, kind_hero_state}
use dota2_ob.Raw.Read.{line, unreadable}
use dota2_ob.Identity.Participants.{Participant}
use dota2_ob.Facts.Payloads.{
  Fact, MatchState, ParticipantFact, HeroStateSample, HeroBinding, Coverage, Summary, Payload,
  family_match_state, family_participant, family_hero_state, family_combat,
}
use dota2_ob.Facts.Accounts.{Builder, player_ref, account_for_class, class_for_hero, or_empty}
use dota2_ob.Facts.Drafts.{combat_draft}
use dota2_ob.Facts.Numbering.{
  facts_schema, side_of_winner, hero_name_for, Work, fresh_coverage, coverage_or, init_count,
  add_count, add_missing, hand_over, emit_bytes, emit_fact, emit_participants, empty_work, preamble,
  match_payload, participant_payload, binding_of,
}
use dota2_ob.Facts.Samples.{
  math_round_half, max_f, min_f, sample_payload, throttled, add_gap, sample_at, sample_hero,
  known_hero, on_hero_state,
}
use dota2_ob.Facts.Totals.{
  times, eligible_seconds, finalize_coverage, finalize_families, keys_of, gaps_at, top_gaps,
  summarize,
}

-- What Build returns: a summary, an error of the reader or of the callback, or a panic on a nil
-- pointer, each with the state in which it was left.
pub data Built (N : Type 0) : Type 0 where
  built : Summary N → Work N → Built N
  read_error refused nil_panic : Work N → Built N

module _ {N : Type 0} (f : FloatOps N) (marshal : Payload N → Option (List ℕ)) (b : Builder N) where
  -- The callback, on what it took and what it is given: whether it returns nil.
  module _ (accepts : List (Fact N) → Fact N → Bool) where
    -- The error of the callback on the last fact.
    abbrev last_accepted : List (Fact N) → List (Fact N) → Bool
    last_accepted before [] = true
    last_accepted before (x ∷ []) = accepts before x
    last_accepted before (x ∷ y ∷ ys) = last_accepted (before ++ x ∷ []) (y ∷ ys)

    abbrev handed : Combat N → N → String → Payload N → Work N → Work N
    handed c gs family p w = hand_over f marshal b family gs c.tick c.seq (marshal p) w

    -- emitCombat: whether it returns nil, and the state after it.
    abbrev emit_draft : Combat N → N → Option (String × Payload N) → Work N → Bool × Work N
    emit_draft c gs none w = (true, w)
    emit_draft c gs (some (family, p)) w =
        (last_accepted [] (handed c gs family p w).emitted, handed c gs family p w)

    unfoldable pub emit_combat : Combat N → N → Work N → Bool × Work N
    unfolding combat_draft hand_over
    emit_combat c gs w = emit_draft c gs (combat_draft b c) w

    abbrev if_combat : Option (Combat N) → Work N → Option (Bool × Work N)
    if_combat none w = none
    if_combat (some c) w = some (
        emit_combat c (game_second_of_combat_ts f b.clk c.ts)
          (record w { combat_events = w.combat_events + 1 }))

    abbrev if_hero_state : Option (HeroState N) → Work N → Option (Bool × Work N)
    if_hero_state none w = none
    if_hero_state (some h) w = some (true, on_hero_state f marshal b h w)

    -- One event: `none` is a panic, and the Boolean is whether the loop goes on.
    unfoldable pub on_event : Event N → Work N → Option (Bool × Work N)
    unfolding emit_combat on_hero_state
    on_event e w =
        let w' : Work N = record w { raw_events = w.raw_events + 1 } in
        if str_eq e.kind kind_combat
        then if_combat e.combat w'
        else if str_eq e.kind kind_hero_state
        then if_hero_state e.hero_state w'
        else some (true, w')

    abbrev after_event : (Work N → Built N) → Work N → Option (Bool × Work N) → Built N
    after_event rest w none = nil_panic w
    after_event rest w (some (false, w')) = refused w'
    after_event rest w (some (true, w')) = rest w'

    unfoldable pub build_from : List (Read N) → Work N → Built N
    unfolding on_event summarize
    build_from [] w = built (summarize f b w) w
    build_from (unreadable ∷ rs) w = read_error w
    build_from (line e ∷ rs) w = after_event (build_from rs) w (on_event e w)

    -- Build
    unfoldable pub build : List (Read N) → Built N
    unfolding build_from preamble
    build rs = build_from rs (preamble f marshal b)
