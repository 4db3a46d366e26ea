-- ===== src/Clock/Gate.antt =====
-- When the clock is calibrated.
use mathlib.Core.Logic.{◌↔◌}
use mathlib.Core.Bool.{false≢true}
use dota2_ob.Prelude.{
  ◌≡◌, ◌≢◌, refl, sym, ap, ◌∙◌, inl, inr, Bool-cases, true, false, ◌&&◌, Option, none, some, List,
  ◌==◌, eq_iff, if_first, if_else, if◌then◌else◌,
}
use dota2_ob.Prelude.Int.{pos, leb_ℤ}
use dota2_ob.Clock.{
  FloatOps, Transition, Clock, BuildOptions, calibrated, unavailable, fail_closed,
  state_game_in_progress, state_postgame, first_to, initial, anchored, no_anchor, within, measured,
  ended_at, build,
}
use dota2_ob.Clock.First.{IsFirst, first_to-IsFirst, IsFirst-first_to}

closed≢calibrated : fail_closed ≢ calibrated
closed≢calibrated h = false≢true ((eq_iff fail_closed calibrated).1 h)

unavailable≢calibrated : unavailable ≢ calibrated
unavailable≢calibrated h = false≢true ((eq_iff unavailable calibrated).1 h)

module _ {N : Type 0} (f : FloatOps N) (opts : BuildOptions N) where
  -- The anchor is the first transition into the game, and not one at tick 0 and second 0; the end is
  -- the first transition to the game's end. The public duration is positive, and so is the one
  -- between them, which differs from it by two seconds at most, or by a thousandth of it.
  pub record Agrees (ts : List (Transition N)) (a e : Transition N) : Type 0 where
    pub announced : leb_ℤ opts.public_duration_seconds (pos 0) ≡ false
    pub is_anchor : IsFirst state_game_in_progress ts a
    pub stamped : (a.tick == 0 && f.eq a.combat_ts f.zero) ≡ false
    pub is_end : IsFirst state_postgame ts e
    pub positive : f.le (f.sub e.combat_ts a.combat_ts) f.zero ≡ false
    pub agrees :
        let public : N = f.of_int opts.public_duration_seconds in
        let difference : N = f.abs (f.sub public (f.sub e.combat_ts a.combat_ts)) in
        f.le difference (f.max f.two (f.mul public f.thousandth)) ≡ true

  ended_at_inv :
      (o : Option (Transition N)) (c : Clock N)
      → c.state ≡ fail_closed
      → (ended_at f opts o c).state ≡ calibrated
      → (e : Transition N) × (o ≡ some e)
        × (f.le (f.sub e.combat_ts c.anchor_combat_ts) f.zero ≡ false)
        × (within f opts (f.sub e.combat_ts c.anchor_combat_ts) ≡ true)
  ended_at_inv none c s h = absurd (unavailable≢calibrated h)
  ended_at_inv (some e) c s h =
      elim (Bool-cases (f.le (f.sub e.combat_ts c.anchor_combat_ts) f.zero)) [
        | inl flat ↦ absurd (
            closed≢calibrated (
              sym s
              ∙ sym (
                  ap (λ (k : Clock N). k.state)
                    (if_first (f.le (f.sub e.combat_ts c.anchor_combat_ts) f.zero) _ _ flat))
              ∙ h))
        | inr positive ↦ elim (Bool-cases (within f opts (f.sub e.combat_ts c.anchor_combat_ts))) [
          | inl near ↦ (e, refl, positive, near)
          | inr far ↦ absurd (
              closed≢calibrated (
                sym (
                  ap (λ (k : Clock N). k.state)
                    (if_else (f.le (f.sub e.combat_ts c.anchor_combat_ts) f.zero) _ _ positive
                      ∙ if_else (within f opts (f.sub e.combat_ts c.anchor_combat_ts)) _ _ far))
                ∙ h))
        ]
      ]

  -- Build once the public duration is known to be positive.
  abbrev announced_build :
      List (Transition N) → Option (Transition N) → Option (Transition N) → Clock N
  announced_build ts o p =
      let c : Clock N = anchored f o (initial f ts opts) in
      if no_anchor f c
      then record c { reason = "game_in_progress_anchor_missing" }
      else ended_at f opts p c

  announced_inv :
      (ts : List (Transition N)) (o p : Option (Transition N))
      → f.eq f.zero f.zero ≡ true
      → (announced_build ts o p).state ≡ calibrated
      → (a e : Transition N) × (o ≡ some a)
        × (p ≡ some e)
        × ((a.tick == 0 && f.eq a.combat_ts f.zero) ≡ false)
        × (f.le (f.sub e.combat_ts a.combat_ts) f.zero ≡ false)
        × (within f opts (f.sub e.combat_ts a.combat_ts) ≡ true)
  announced_inv ts none p law h = absurd (
      closed≢calibrated
        (sym (ap (λ (k : Clock N). k.state) (if_first (f.eq f.zero f.zero) _ _ law)) ∙ h))
  announced_inv ts (some a) p law h = elim (Bool-cases (a.tick == 0 && f.eq a.combat_ts f.zero)) [
    | inl unstamped ↦ absurd (
        closed≢calibrated (
          sym (
            ap (λ (k : Clock N). k.state)
              (if_first (a.tick == 0 && f.eq a.combat_ts f.zero) _ _ unstamped))
          ∙ h))
    | inr stamped ↦
        let c : Clock N = anchored f (some a) (initial f ts opts) in
        let at : (ended_at f opts p c).state ≡ calibrated =
          sym (
            ap (λ (k : Clock N). k.state)
              (if_else (a.tick == 0 && f.eq a.combat_ts f.zero) _ _ stamped))
          ∙ h in
        let (e, is_end, positive, near) = ended_at_inv p c refl at in
        (a, e, refl, is_end, stamped, positive, near)
  ]

  build_inv :
      (ts : List (Transition N))
      → f.eq f.zero f.zero ≡ true
      → (build f ts opts).state ≡ calibrated
      → (a e : Transition N) × Agrees ts a e
  unfolding build
  build_inv ts law h = elim (Bool-cases (leb_ℤ opts.public_duration_seconds (pos 0))) [
    | inl missing ↦ absurd (
        closed≢calibrated (
          sym (
            ap (λ (k : Clock N). k.state)
              (if_first (leb_ℤ opts.public_duration_seconds (pos 0)) _ _ missing))
          ∙ h))
    | inr announced ↦
        let (a, e, anchor, end, stamped, positive, near) =
          announced_inv ts (first_to state_game_in_progress ts) (first_to state_postgame ts) law (
            sym (
              ap (λ (k : Clock N). k.state)
                (if_else (leb_ℤ opts.public_duration_seconds (pos 0)) _ _ announced))
            ∙ h) in
        (
          a,
          e,
          record {
            announced = announced;
            is_anchor = first_to-IsFirst state_game_in_progress ts a anchor;
            stamped = stamped;
            is_end = first_to-IsFirst state_postgame ts e end;
            positive = positive;
            agrees = near;
          },
        )
  ]

  -- The clock of an anchor and an end that agree.
  abbrev agreed_clock : List (Transition N) → Transition N → Transition N → Clock N
  agreed_clock ts a e =
      record (measured f opts (f.sub e.combat_ts a.combat_ts)
        (record (anchored f (some a) (initial f ts opts)) {
          end_combat_ts = some e.combat_ts;
          end_tick = some e.tick;
        })) { state = calibrated; reason = "anchored_at_game_in_progress" }

  build-Agrees :
      (ts : List (Transition N)) (a e : Transition N)
      → Agrees ts a e
      → build f ts opts ≡ agreed_clock ts a e
  unfolding build
  build-Agrees ts a e g =
      if_else (leb_ℤ opts.public_duration_seconds (pos 0)) _ _ g.announced
      ∙ ap (λ o. announced_build ts o (first_to state_postgame ts))
          (IsFirst-first_to state_game_in_progress ts a g.is_anchor)
      ∙ ap (announced_build ts (some a)) (IsFirst-first_to state_postgame ts e g.is_end)
      ∙ if_else (a.tick == 0 && f.eq a.combat_ts f.zero) _ _ g.stamped
      ∙ if_else (f.le (f.sub e.combat_ts a.combat_ts) f.zero) _ _ g.positive
      ∙ if_first (within f opts (f.sub e.combat_ts a.combat_ts)) _ _ g.agrees

  -- The state is `calibrated` exactly if the stream has a first transition into the game, the anchor,
  -- and a first one to the game's end, such that the anchor is not at both tick 0 and second 0, the
  -- public duration is positive, the end is later than the anchor, and the time between them differs
  -- from the public duration, up or down, by at most the greater of two seconds and a thousandth of
  -- it. The float64 zero is taken to equal itself.
  pub calibrated_iff :
      (ts : List (Transition N))
      → f.eq f.zero f.zero ≡ true
      → ((build f ts opts).state ≡ calibrated)
        ↔ ((a : Transition N) × (e : Transition N) × Agrees ts a e)
  calibrated_iff ts law =
      (build_inv ts law, λ (a, e, g). ap (λ (k : Clock N). k.state) (build-Agrees ts a e g))
