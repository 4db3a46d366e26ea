-- ===== src/Review/Accepted.antt =====
-- Every partition of the eligible seconds passes validateStream of
-- internal/replay/review/phase_ops.go, and when Apply returns a stream.
use mathlib.Core.Path.{subst}
use mathlib.Core.Logic.{◌↔◌}
use mathlib.Core.Option.{none-ne-some, some-injective}
use dota2_ob.Prelude.{
  ◌≡◌, refl, sym, ap, ◌∙◌, inl, inr, Bool, true, false, not, ◌&&◌, Option, none, some, List, [],
  ◌∷◌, ◌++◌, All, is_empty, if_first, if_else, arith,
}
use dota2_ob.Prelude.Int.{ℤ, pos, ltb_ℤ, leb_ℤ, eqb_ℤ, ◌<ℤ◌}
use dota2_ob.Review.{run_operation, if_valid, validated, apply}
use dota2_ob.Review.Edits.{PhaseOpReq, Edited}
use dota2_ob.Review.Edits.Edited.{edited, refused}
use dota2_ob.Review.Stream.{
  PhaseInterval, OpError, is_official, is_laning, or_else, Scan, interval_error, passed_interval,
  validate_intervals, last_of, first_scan, validate_sorted, sorted,
}
use dota2_ob.Review.Valid.{
  Covers, IsOfficial, InLaning, OutOfLaning, IsStream, validate_sorted-IsStream, edited_of,
  past_refusal,
}

official_passes : (iv : PhaseInterval) → IsOfficial iv → is_official iv.global_phase ≡ true
unfolding is_official
official_passes iv (inl l) = ap is_official l
official_passes iv (inr (inl m)) = ap is_official m
official_passes iv (inr (inr d)) = ap is_official d

not_below_itself : (a b : ℤ) → a ≡ b → ltb_ℤ a b ≡ false
not_below_itself a b e = subst (λ c. ltb_ℤ a c ≡ false) e (ground arith)

is_wide : (a b : ℤ) → a <ℤ b → leb_ℤ b a ≡ false
is_wide a b h = ground arith

both_false : (a b : Bool) → b ≡ false → (a && b) ≡ false
both_false a b h = ground arith

interval_passes :
    (s : Scan) (iv : PhaseInterval)
    → IsOfficial iv
    → iv.start ≡ s.prev_end
    → iv.start <ℤ iv.end_second
    → (is_laning iv && s.saw_laning_exit) ≡ false
    → interval_error s iv ≡ none
interval_passes s iv named starts wide once =
    if_else (not (is_official iv.global_phase)) _ _ (ap not (official_passes iv named))
    ∙ if_else (leb_ℤ iv.end_second iv.start) _ _ (is_wide iv.start iv.end_second wide)
    ∙ if_else (s.later && ltb_ℤ iv.start s.prev_end) _ _
        (both_false s.later _ (not_below_itself iv.start s.prev_end starts))
    ∙ if_else (ltb_ℤ s.prev_end iv.start) _ _ (not_below_itself s.prev_end iv.start (sym starts))
    ∙ if_else (is_laning iv && s.saw_laning_exit) _ _ once

-- One interval, and then the others.
then_passes :
    (s : Scan) (iv : PhaseInterval) (ivs : List PhaseInterval)
    → interval_error s iv ≡ none
    → validate_intervals (passed_interval s iv) ivs ≡ none
    → validate_intervals s (iv ∷ ivs) ≡ none
unfolding validate_intervals
then_passes s iv ivs h k = ap (λ e. or_else e (validate_intervals (passed_interval s iv) ivs)) h ∙ k

after_passes :
    (s : Scan) (e : ℤ) (ivs : List PhaseInterval)
    → All OutOfLaning ivs
    → Covers s.prev_end ivs e
    → All IsOfficial ivs
    → validate_intervals s ivs ≡ none
unfolding validate_intervals
after_passes s e [] out c o = refl
after_passes s e (iv ∷ ivs) (out, outs) (starts, wide, c) (o, os) =
    then_passes s iv ivs (interval_passes s iv o starts wide (ap (λ b. b && s.saw_laning_exit) out))
      (after_passes (passed_interval s iv) e ivs outs c os)

run_passes :
    (s : Scan) (e : ℤ) (run after : List PhaseInterval)
    → s.saw_laning_exit ≡ false
    → All InLaning run
    → All OutOfLaning after
    → Covers s.prev_end (run ++ after) e
    → All IsOfficial (run ++ after)
    → validate_intervals s (run ++ after) ≡ none
run_passes s e [] after x in_it out c o = after_passes s e after out c o
run_passes s e (iv ∷ run) after x (in_it, ins) out (starts, wide, c) (o, os) =
    then_passes s iv (run ++ after)
      (interval_passes s iv o starts wide (both_false (is_laning iv) s.saw_laning_exit x))
      (run_passes (passed_interval s iv) e run after (if_first (is_laning iv) _ _ in_it ∙ x) ins out
        c os)

stream_passes :
    (s : Scan) (e : ℤ) (before run after : List PhaseInterval)
    → s.seen_laning ≡ false
    → s.saw_laning_exit ≡ false
    → All OutOfLaning before
    → All InLaning run
    → All OutOfLaning after
    → Covers s.prev_end (before ++ run ++ after) e
    → All IsOfficial (before ++ run ++ after)
    → validate_intervals s (before ++ run ++ after) ≡ none
stream_passes s e [] run after n x outs ins out c o = run_passes s e run after x ins out c o
stream_passes s e (iv ∷ before) run after n x (first, outs) ins out (starts, wide, c) (o, os) =
    then_passes s iv (before ++ run ++ after)
      (interval_passes s iv o starts wide (both_false (is_laning iv) s.saw_laning_exit x))
      (stream_passes (passed_interval s iv) e before run after
        (if_else (is_laning iv) _ _ first ∙ n)
        (if_else (is_laning iv) _ _ first ∙ if_else s.seen_laning _ _ n ∙ x) outs ins out c os)

ends_at :
    (at e : ℤ) (iv : PhaseInterval) (ivs : List PhaseInterval)
    → Covers at (iv ∷ ivs) e
    → (last_of iv ivs).end_second ≡ e
ends_at at e iv [] (starts, wide, c) = c
ends_at at e iv (j ∷ js) (starts, wide, c) = ends_at iv.end_second e j js c

eqb_ℤ_complete : (a b : ℤ) → a ≡ b → eqb_ℤ a b ≡ true
eqb_ℤ_complete a b e = subst (λ c. eqb_ℤ a c ≡ true) e (ground arith)

IsStream-validate_sorted :
    (ivs : List PhaseInterval) (eligible : ℤ)
    → IsStream eligible ivs
    → validate_sorted ivs eligible ≡ none
unfolding validate_sorted
IsStream-validate_sorted [] eligible w = absurd (w.some_interval refl)
IsStream-validate_sorted (iv ∷ ivs) eligible w =
    let (before, run, after, same, outs, ins, out) = w.laning in
    if_else (not (eqb_ℤ iv.start (pos 0))) _ _
      (ap not (eqb_ℤ_complete iv.start (pos 0) w.covered.0))
    ∙ if_else (not (eqb_ℤ (last_of iv ivs).end_second eligible)) _ _
        (ap not (eqb_ℤ_complete _ eligible (ends_at (pos 0) eligible iv ivs w.covered)))
    ∙ ap (validate_intervals first_scan) same
    ∙ stream_passes first_scan eligible before run after refl refl outs ins out
        (subst (λ js. Covers (pos 0) js eligible) same w.covered)
        (subst (All IsOfficial) same w.official)

abbrev pub Reaches : List PhaseInterval → PhaseOpReq → List PhaseInterval → Type 0
Reaches base req ivs =
    (work : List PhaseInterval) × (run_operation (sorted base) req ≡ edited work)
    × (sorted work ≡ ivs)

validated-Reaches :
    (eligible : ℤ) (x : Edited) (ivs : List PhaseInterval)
    → validated eligible x ≡ edited ivs
    → (work : List PhaseInterval) × (x ≡ edited work) × (sorted work ≡ ivs) × IsStream eligible ivs
validated-Reaches eligible (refused e) ivs h = absurd (none-ne-some _ (ap edited_of h))
validated-Reaches eligible (edited work) ivs h =
    checked (validate_sorted (sorted work) eligible) refl h
  where
    checked :
        (e : Option OpError)
        → validate_sorted (sorted work) eligible ≡ e
        → if_valid (sorted work) e ≡ edited ivs
        → (w : List PhaseInterval) × (edited work ≡ edited w)
          × (sorted w ≡ ivs)
          × IsStream eligible ivs
    checked none k g =
        let same = some-injective _ _ (ap edited_of g) in
        (
          work,
          refl,
          same,
          subst (IsStream eligible) same (validate_sorted-IsStream (sorted work) eligible k),
        )
    checked (some e) k g = absurd (none-ne-some _ (ap edited_of g))

-- Apply returns a stream exactly if the eligible seconds are positive, the current stream is not
-- empty, the operation on the current stream in order gives an edited stream, what is returned is
-- this in order, and it is a partition of the seconds from 0 to the eligible seconds: intervals that
-- are not empty and follow each other without a gap or an overlap, each with an official phase, and
-- those of the laning phase follow each other.
pub apply_iff :
    (base : List PhaseInterval) (req : PhaseOpReq) (ivs : List PhaseInterval)
    → (apply base req ≡ edited ivs) ↔ (
        (leb_ℤ req.eligible_seconds (pos 0) ≡ false)
        × (is_empty base ≡ false)
        × Reaches base req ivs
        × IsStream req.eligible_seconds ivs)
unfolding apply
apply_iff base req ivs = (
  λ h.
      let (positive, some_base) = past_refusal (leb_ℤ req.eligible_seconds (pos 0)) _ _ ivs h in
      let (full, done) = past_refusal (is_empty base) _ _ ivs some_base in
      let (work, ran, same, stream) =
        validated-Reaches req.eligible_seconds (run_operation (sorted base) req) ivs done in
      (positive, full, (work, ran, same), stream),
  λ h.
      let (positive, full, reached, stream) = h in
      let (work, ran, same) = reached in
      let eligible = req.eligible_seconds in
      if_else (leb_ℤ eligible (pos 0)) _ _ positive
      ∙ if_else (is_empty base) _ _ full
      ∙ ap (validated eligible) ran
      ∙ ap (if_valid (sorted work)) (
          ap (λ js. validate_sorted js eligible) same
          ∙ IsStream-validate_sorted ivs eligible stream)
      ∙ ap edited same,
)
