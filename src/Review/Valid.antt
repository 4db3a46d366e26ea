-- ===== src/Review/Valid.antt =====
-- What validateStream of internal/replay/review/phase_ops.go lets through.
use mathlib.Core.Path.{subst}
use mathlib.Core.Bool.{false≢true}
use mathlib.Core.Option.{none-ne-some}
use dota2_ob.Prelude.Guards.{guard_passed, test_passed}
use dota2_ob.Prelude.{
  ◌≡◌, ◌≢◌, refl, sym, ap, ◌∙◌, ◌⊎◌, inl, inr, Bool-cases, Bool, true, false, ◌&&◌, Option, none,
  some, List, [], ◌∷◌, ◌++◌, All, str_eq, eq_iff, is_empty, if◌then◌else◌, if_first, if_else, arith,
}
use dota2_ob.Prelude.Int.{ℤ, pos, ltb_ℤ, leb_ℤ, eqb_ℤ, ◌<ℤ◌, eq_of_parts, ltb_ℤ→ge, leb_ℤ→gt}
use dota2_ob.Review.Edits.{Edited}
use dota2_ob.Review.Edits.Edited.{edited, refused}
use dota2_ob.Review.Stream.{
  PhaseInterval, OpError, is_official, is_laning, or_else, Scan, interval_error, passed_interval,
  validate_intervals, last_of, first_scan, validate_sorted,
}

-- One interval after the other, without a gap, from a second on to an end.
abbrev pub Covers : ℤ → List PhaseInterval → ℤ → Type 0
Covers at [] e = at ≡ e
Covers at (iv ∷ ivs) e = (iv.start ≡ at) × (iv.start <ℤ iv.end_second) × Covers iv.end_second ivs e

abbrev pub IsOfficial : PhaseInterval → Type 0
IsOfficial iv =
    (iv.global_phase ≡ "laning") ⊎ (iv.global_phase ≡ "midgame") ⊎ (iv.global_phase ≡ "decisive")

abbrev pub InLaning : PhaseInterval → Type 0
InLaning iv = is_laning iv ≡ true

abbrev pub OutOfLaning : PhaseInterval → Type 0
OutOfLaning iv = is_laning iv ≡ false

-- The intervals of the laning phase follow each other.
abbrev pub LaningOnce : List PhaseInterval → Type 0
LaningOnce ivs =
    (before : List PhaseInterval) × (run : List PhaseInterval) × (after : List PhaseInterval) × (ivs
      ≡ before ++ run ++ after)
    × All OutOfLaning before
    × All InLaning run
    × All OutOfLaning after

pub record IsStream (eligible : ℤ) (ivs : List PhaseInterval) : Type 0 where
  pub some_interval : ivs ≢ []
  pub covered : Covers (pos 0) ivs eligible
  pub official : All IsOfficial ivs
  pub laning : LaningOnce ivs

is_official-IsOfficial : (iv : PhaseInterval) → is_official iv.global_phase ≡ true → IsOfficial iv
unfolding is_official
is_official-IsOfficial iv h = elim (Bool-cases (str_eq iv.global_phase "laning")) [
  | inl l ↦ inl ((eq_iff iv.global_phase "laning").0 l)
  | inr l ↦ elim (Bool-cases (str_eq iv.global_phase "midgame")) [
    | inl m ↦ inr (inl ((eq_iff iv.global_phase "midgame").0 m))
    | inr m ↦ inr (inr ((eq_iff iv.global_phase "decisive").0 (ground arith)))
  ]
]

or_else-none : (e rest : Option OpError) → or_else e rest ≡ none → (e ≡ none) × (rest ≡ none)
or_else-none none rest h = (refl, h)
or_else-none (some e) rest h = absurd (none-ne-some _ (sym h))

between : (a b : ℤ) → ltb_ℤ a b ≡ false → ltb_ℤ b a ≡ false → a ≡ b
between a b h k = eq_of_parts a b (omega (arith, ltb_ℤ→ge a b h, ltb_ℤ→ge b a k))

-- What an interval that passes has.
record Passes (s : Scan) (iv : PhaseInterval) : Type 0 where
  official : IsOfficial iv
  wide : iv.start <ℤ iv.end_second
  not_before : (s.later && ltb_ℤ iv.start s.prev_end) ≡ false
  not_after : ltb_ℤ s.prev_end iv.start ≡ false
  no_reentry : (is_laning iv && s.saw_laning_exit) ≡ false

interval_error-Passes : (s : Scan) (iv : PhaseInterval) → interval_error s iv ≡ none → Passes s iv
interval_error-Passes s iv h =
    let (named, h1) = guard_passed (is_official iv.global_phase) _ _ h in
    let (wide, h2) = test_passed (leb_ℤ iv.end_second iv.start) _ _ h1 in
    let (overlap, h3) = test_passed (s.later && ltb_ℤ iv.start s.prev_end) _ _ h2 in
    let (gap, h4) = test_passed (ltb_ℤ s.prev_end iv.start) _ _ h3 in
    let (laning, _) = test_passed (is_laning iv && s.saw_laning_exit) _ _ h4 in
    record {
      official = is_official-IsOfficial iv named;
      wide = leb_ℤ→gt iv.end_second iv.start wide;
      not_before = overlap;
      not_after = gap;
      no_reentry = laning;
    }

intervals_official :
    (s : Scan) (ivs : List PhaseInterval) → validate_intervals s ivs ≡ none → All IsOfficial ivs
unfolding validate_intervals
intervals_official s [] h = tt
intervals_official s (iv ∷ ivs) h =
    let (first, rest) = or_else-none (interval_error s iv) _ h in
    (
      (interval_error-Passes s iv first).official,
      intervals_official (passed_interval s iv) ivs rest,
    )

starts_at :
    (s : Scan) (iv : PhaseInterval)
    → (s.later ≡ true) ⊎ (iv.start ≡ s.prev_end)
    → Passes s iv
    → iv.start ≡ s.prev_end
starts_at s iv (inr e) p = e
starts_at s iv (inl later) p =
    between iv.start s.prev_end
      (ap (λ b. b && ltb_ℤ iv.start s.prev_end) (sym later) ∙ p.not_before) p.not_after

intervals_cover :
    (s : Scan) (iv : PhaseInterval) (ivs : List PhaseInterval)
    → (s.later ≡ true) ⊎ (iv.start ≡ s.prev_end)
    → validate_intervals s (iv ∷ ivs) ≡ none
    → Covers s.prev_end (iv ∷ ivs) (last_of iv ivs).end_second
unfolding validate_intervals
intervals_cover s iv [] starts h =
    let p : Passes s iv = interval_error-Passes s iv (or_else-none (interval_error s iv) _ h).0 in
    (starts_at s iv starts p, p.wide, refl)
intervals_cover s iv (j ∷ js) starts h =
    let (first, rest) = or_else-none (interval_error s iv) _ h in
    let p : Passes s iv = interval_error-Passes s iv first in
    (starts_at s iv starts p, p.wide, intervals_cover (passed_interval s iv) j js (inl refl) rest)

left_is_false : (a b : Bool) → b ≡ true → (a && b) ≡ false → a ≡ false
left_is_false a b h k = ground arith

either : (a b : Bool) → b ≡ true → (if a then true else b) ≡ true
either a b h = ground arith

-- After laning was left.
laning_left :
    (s : Scan) (ivs : List PhaseInterval)
    → s.saw_laning_exit ≡ true
    → validate_intervals s ivs ≡ none
    → All OutOfLaning ivs
unfolding validate_intervals
laning_left s [] e h = tt
laning_left s (iv ∷ ivs) e h =
    let (first, rest) = or_else-none (interval_error s iv) _ h in
    let out : is_laning iv ≡ false =
      left_is_false (is_laning iv) s.saw_laning_exit e
        (interval_error-Passes s iv first).no_reentry in
    (
      out,
      laning_left (passed_interval s iv) ivs
          (if_else (is_laning iv) _ _ out ∙ either (s.seen_laning) s.saw_laning_exit e) rest,
    )

-- While laning goes on.
laning_runs :
    (s : Scan) (ivs : List PhaseInterval)
    → s.seen_laning ≡ true
    → validate_intervals s ivs ≡ none
    → (run : List PhaseInterval) × (after : List PhaseInterval) × (ivs ≡ run ++ after)
      × All InLaning run
      × All OutOfLaning after
unfolding validate_intervals
laning_runs s [] e h = ([], [], refl, tt, tt)
laning_runs s (iv ∷ ivs) e h =
    let (first, rest) = or_else-none (interval_error s iv) _ h in
    elim (Bool-cases (is_laning iv)) [
      | inl in_it ↦
          let (run, after, same, all_in, all_out) =
            laning_runs (passed_interval s iv) ivs (if_first (is_laning iv) _ _ in_it) rest in
          (iv ∷ run, after, ap (λ js. iv ∷ js) same, (in_it, all_in), all_out)
      | inr out ↦ (
        [],
        iv ∷ ivs,
        refl,
        tt,
        (
          out,
          laning_left (passed_interval s iv) ivs
              (if_else (is_laning iv) _ _ out ∙ if_first s.seen_laning _ _ e) rest,
        ),
      )
    ]

laning_once :
    (s : Scan) (ivs : List PhaseInterval) → validate_intervals s ivs ≡ none → LaningOnce ivs
unfolding validate_intervals
laning_once s [] h = ([], [], [], refl, tt, tt, tt)
laning_once s (iv ∷ ivs) h =
    let (first, rest) = or_else-none (interval_error s iv) _ h in
    elim (Bool-cases (is_laning iv)) [
      | inl in_it ↦
          let (run, after, same, all_in, all_out) =
            laning_runs (passed_interval s iv) ivs (if_first (is_laning iv) _ _ in_it) rest in
          ([], iv ∷ run, after, ap (λ js. iv ∷ js) same, tt, (in_it, all_in), all_out)
      | inr out ↦
          let (before, run, after, same, all_before, all_in, all_out) =
            laning_once (passed_interval s iv) ivs rest in
          (iv ∷ before, run, after, ap (λ js. iv ∷ js) same, (out, all_before), all_in, all_out)
    ]

eqb_ℤ_sound : (a b : ℤ) → eqb_ℤ a b ≡ true → a ≡ b
eqb_ℤ_sound a b h = eq_of_parts a b (ground arith)

pub validate_sorted-IsStream :
    (ivs : List PhaseInterval) (eligible : ℤ)
    → validate_sorted ivs eligible ≡ none
    → IsStream eligible ivs
unfolding validate_sorted
validate_sorted-IsStream [] eligible h = absurd (none-ne-some _ (sym h))
validate_sorted-IsStream (iv ∷ ivs) eligible h =
    let (zero_start, h1) = guard_passed (eqb_ℤ iv.start (pos 0)) _ _ h in
    let (full_end, checked) = guard_passed (eqb_ℤ (last_of iv ivs).end_second eligible) _ _ h1 in
    record {
      some_interval = λ e. false≢true (ap is_empty e);
      covered = subst (Covers (pos 0) (iv ∷ ivs)) (eqb_ℤ_sound _ eligible full_end) (
          intervals_cover first_scan iv ivs (inr (eqb_ℤ_sound iv.start (pos 0) zero_start))
            checked);
      official = intervals_official first_scan (iv ∷ ivs) checked;
      laning = laning_once first_scan (iv ∷ ivs) checked;
    }

abbrev pub edited_of : Edited → Option (List PhaseInterval)
edited_of (edited ivs) = some ivs
edited_of (refused e) = none

pub past_refusal :
    (b : Bool) (e : OpError) (x : Edited) (ivs : List PhaseInterval)
    → (if b then refused e else x) ≡ edited ivs
    → (b ≡ false) × (x ≡ edited ivs)
past_refusal false e x ivs h = (refl, h)
past_refusal true e x ivs h = absurd (none-ne-some _ (ap edited_of h))
