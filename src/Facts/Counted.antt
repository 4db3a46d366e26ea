-- ===== src/Facts/Counted.antt =====
-- The numbers of the facts and the counts of their families, through Build.
use dota2_ob.Prelude.{
  ℕ, ◌+◌, ◌≡◌, refl, sym, ap, ◌∙◌, String, Bool, true, false, Option, none, some, List, [], ◌∷◌,
  All, ltb, str_eq, if◌then◌else◌,
}
use dota2_ob.Prelude.Int.{ℤ}
use dota2_ob.Clock.{FloatOps}
use dota2_ob.Raw.{Event, Read, Combat, HeroState, kind_combat, kind_hero_state}
use dota2_ob.Raw.Read.{line, unreadable}
use dota2_ob.Facts.Numbering.{Work, init_count}
use dota2_ob.Facts.{
  Built, emit_draft, emit_combat, if_combat, if_hero_state, on_event, after_event, build_from,
  build,
}
use dota2_ob.Facts.Totals.{finalize_families, summarize}
use dota2_ob.Facts.Built.{built, read_error, refused, nil_panic}
use dota2_ob.Facts.Payloads.{Fact, Coverage, Payload}
use dota2_ob.Facts.Accounts.{Builder}
use dota2_ob.Facts.Drafts.{combat_draft}
use dota2_ob.Facts.Kept.{
  occurrences, IsCounted, kept, hand_over-IsCounted, preamble-IsCounted, on_hero_state-IsCounted,
}

abbrev After : {N : Type 0} → Option (Bool × Work N) → Type 0
After none = Unit
After (some (goes_on, w)) = IsCounted w

-- The state in which Build returns.
abbrev pub work_of : {N : Type 0} → Built N → Work N
work_of (built s w) = w
work_of (read_error w) = w
work_of (refused w) = w
work_of (nil_panic w) = w

-- The families of the summary, if Build returns one.
abbrev pub families_of : {N : Type 0} → Built N → List Coverage
families_of (built s w) = s.families
families_of (read_error w) = []
families_of (refused w) = []
families_of (nil_panic w) = []

-- A family's count is the number of its facts, and it is available if there are any.
abbrev pub Covers : {N : Type 0} → List (Fact N) → Coverage → Type 0
Covers emitted c =
    (c.count ≡ occurrences c.family emitted) × (c.available ≡ ltb 0 (occurrences c.family emitted))

module _ {N : Type 0} (f : FloatOps N) (marshal : Payload N → Option (List ℕ)) (b : Builder N)
    (accepts : List (Fact N) → Fact N → Bool) where
  emit_draft-After :
      (c : Combat N) (gs : N) (o : Option (String × Payload N)) (w : Work N)
      → IsCounted w
      → After (some (emit_draft f marshal b accepts c gs o w))
  emit_draft-After c gs none w d = d
  emit_draft-After c gs (some (family, p)) w d =
      hand_over-IsCounted f marshal b family gs c.tick c.seq (marshal p) w d

  if_combat-After :
      (o : Option (Combat N)) (w : Work N) → IsCounted w → After (if_combat f marshal b accepts o w)
  unfolding emit_combat
  if_combat-After none w d = tt
  if_combat-After (some c) w d =
      emit_draft-After c _ (combat_draft b c) _ (kept w _ refl refl refl d)

  if_hero_state-After :
      (o : Option (HeroState N)) (w : Work N)
      → IsCounted w
      → After (if_hero_state f marshal b accepts o w)
  if_hero_state-After none w d = tt
  if_hero_state-After (some h) w d = on_hero_state-IsCounted f marshal b h w d

  if_After :
      (t : Bool) (o p : Option (Bool × Work N)) → After o → After p → After (if t then o else p)
  if_After true o p d e = d
  if_After false o p d e = e

  on_event-After :
      (e : Event N) (w : Work N) → IsCounted w → After (on_event f marshal b accepts e w)
  unfolding on_event
  on_event-After e w d =
      let w' : Work N = record w { raw_events = w.raw_events + 1 } in
      let d' : IsCounted w' = kept w w' refl refl refl d in
      if_After (str_eq e.kind kind_combat) _ _ (if_combat-After e.combat w' d')
        (if_After (str_eq e.kind kind_hero_state) _ _ (if_hero_state-After e.hero_state w' d') d')

  covered :
      (eligible : ℤ) (w : Work N)
      → IsCounted w
      → (ns : List String) → All (Covers w.emitted) (finalize_families f b eligible w.counts ns)
  unfolding finalize_families
  covered eligible w d [] = tt
  covered eligible w d (n ∷ ns) =
      let here : (init_count n w.counts).count
          ≡ occurrences (init_count n w.counts).family w.emitted =
        d.counted n ∙ ap (λ g. occurrences g w.emitted) (sym (d.named n)) in
      ((here, ap (ltb 0) here), covered eligible w d ns)

  abbrev Returns : Built N → Type 0
  Returns r = IsCounted (work_of r) × All (Covers (work_of r).emitted) (families_of r)

  after_event-Returns :
      (rs : List (Read N)) (w : Work N) (o : Option (Bool × Work N))
      → ((v : Work N) → IsCounted v → Returns (build_from f marshal b accepts rs v))
      → IsCounted w
      → After o
      → Returns (after_event f marshal b accepts (build_from f marshal b accepts rs) w o)
  after_event-Returns rs w none rest d a = (d, tt)
  after_event-Returns rs w (some (false, v)) rest d a = (a, tt)
  after_event-Returns rs w (some (true, v)) rest d a = rest v a

  build_from-Returns :
      (rs : List (Read N)) (w : Work N)
      → IsCounted w
      → Returns (build_from f marshal b accepts rs w)
  unfolding build_from summarize
  build_from-Returns [] w d = (d, covered _ w d _)
  build_from-Returns (unreadable ∷ rs) w d = (d, tt)
  build_from-Returns (line e ∷ rs) w d =
      after_event-Returns rs w (on_event f marshal b accepts e w) (build_from-Returns rs) d
        (on_event-After e w d)

  -- However Build returns, on whatever stream and with whatever callback: the facts that it handed to
  -- the callback are numbered from 1 without a gap, its count of each family is the number of the
  -- facts of that family, and in a summary each family has that count and is available exactly if
  -- it is not zero.
  pub build-IsCounted :
      (rs : List (Read N))
      → IsCounted (work_of (build f marshal b accepts rs))
        × All
            (Covers (work_of (build f marshal b accepts rs)).emitted)
            (families_of (build f marshal b accepts rs))
  unfolding build
  build-IsCounted rs = build_from-Returns rs _ (preamble-IsCounted f marshal b)
