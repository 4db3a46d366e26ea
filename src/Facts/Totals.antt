-- ===== src/Facts/Totals.antt =====
-- The summary at the end of Build of internal/replay/facts/facts.go.
use dota2_ob.Prelude.{
  ℕ, suc, ◌*◌, String, not, ◌&&◌, Option, none, some, List, [], ◌∷◌, ltb, if◌then◌else◌, length,
  take, lookup, str_eq,
}
use dota2_ob.Prelude.Int.{ℤ, pos, negsuc, ◌+ℤ◌, ◌-ℤ◌}
use dota2_ob.Prelude.Sort.{sort_strings}
use dota2_ob.Clock.{FloatOps}
use dota2_ob.Facts.Payloads.{Coverage, Summary, family_hero_state, family_combat}
use dota2_ob.Facts.Accounts.{Builder}
use dota2_ob.Facts.Numbering.{gap_or_zero, facts_schema, Work, init_count}

-- The product of an integer and a number.
unfoldable pub times : ℤ → ℕ → ℤ
unfolding ◌-ℤ◌
times (pos n) k = pos (n * k)
times (negsuc n) k = pos 0 -ℤ pos (suc n * k)

module _ {N : Type 0} (f : FloatOps N) (b : Builder N) where
  abbrev pub eligible_seconds : Option N → ℤ
  eligible_seconds none = pos 0
  eligible_seconds (some d) = f.to_int d +ℤ pos 1

  -- The final word on one family.
  abbrev pub finalize_coverage : ℤ → String → Coverage → Coverage
  finalize_coverage eligible name c =
      let some_counted = ltb 0 c.count in
      record c {
        eligible =
            if str_eq name family_hero_state && some_counted
            then times eligible (length b.hero_name_to_account)
            else c.eligible;
        unavailable_reason =
            if str_eq name family_hero_state && not some_counted
            then "no_hero_snapshots_in_eligible_seconds"
            else if str_eq name family_combat && not some_counted
            then "no_combat_events"
            else c.unavailable_reason;
        available = some_counted;
      }

  unfoldable pub finalize_families : ℤ → List (String × Coverage) → List String → List Coverage
  unfolding init_count times
  finalize_families eligible counts [] = []
  finalize_families eligible counts (n ∷ ns) =
      finalize_coverage eligible n (init_count n counts) ∷ finalize_families eligible counts ns

  unfoldable pub keys_of : {V : Type 0} → List (String × V) → List String
  keys_of [] = []
  keys_of ((k, v) ∷ m) = k ∷ keys_of m

  unfoldable pub gaps_at : List (String × ℤ) → List String → List (String × ℤ)
  unfolding lookup
  gaps_at gaps [] = []
  gaps_at gaps (k ∷ ks) = (k, gap_or_zero (lookup k gaps)) ∷ gaps_at gaps ks

  -- The first ten accounts in their order.
  abbrev pub top_gaps : List (String × ℤ) → List (String × ℤ)
  top_gaps gaps = gaps_at gaps (take 10 (sort_strings (keys_of gaps)))

  unfoldable pub summarize : Work N → Summary N
  unfolding finalize_families keys_of gaps_at sort_strings ◌+ℤ◌
  summarize w =
      let eligible : ℤ = eligible_seconds b.clk.game_duration_seconds in
      record {
        schema_version = facts_schema;
        match_id = b.idn.match_id;
        families = finalize_families eligible w.counts (sort_strings (keys_of w.counts));
        hero_bindings = w.hero_bindings;
        game_second_min = w.game_second_min;
        game_second_max = w.game_second_max;
        eligible_seconds = eligible;
        position_gaps = top_gaps w.position_gaps;
        raw_events = w.raw_events;
        combat_events = w.combat_events;
      }
