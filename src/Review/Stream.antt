-- ===== src/Review/Stream.antt =====
-- The phase intervals of internal/replay/review/phase_ops.go and the test of a stream of them. An int
-- is an integer, of which the code only compares the values.
use dota2_ob.Prelude.{
  String, Bool, true, false, not, ◌&&◌, Option, none, some, List, [], ◌∷◌, if◌then◌else◌, str_eq,
}
use dota2_ob.Prelude.Int.{ℤ, pos, ltb_ℤ, leb_ℤ, eqb_ℤ}
use dota2_ob.Prelude.Sort.{sort_by}

pub record PhaseInterval : Type 0 where
  pub start : ℤ
  pub end_second : ℤ
  pub global_phase : String
  pub round_index : ℤ
  pub event_ref : String

-- The errors of the operations and of the validation, with what they name.
pub data OpError : Type 0 where
  eligible_required empty_stream effective_required split_required same_interval intervals_apart
        relabelled two_boundaries no_left_neighbor no_right_neighbor boundary_unchanged
        absorb_required absorb_itself absorb_apart stream_empty laning_reentry :
      OpError
  unknown_operation invalid_label not_found : String → OpError
  boundaries_changed invalid_split invalid_boundary invalid_bounds exceeds_eligible not_covered
        first_start final_end zero_width overlap gap :
      PhaseInterval → OpError

-- ValidatePhaseLabel, where `none` is no error
unfoldable pub is_official : String → Bool
is_official p =
    if str_eq p "laning" then true else if str_eq p "midgame" then true else str_eq p "decisive"

unfoldable pub validate_phase_label : String → Option OpError
unfolding is_official
validate_phase_label p = if is_official p then none else some (OpError.invalid_label p)

abbrev pub or_else : Option OpError → Option OpError → Option OpError
or_else none rest = rest
or_else (some e) rest = some e

-- ValidateIntervalShape, of an interval that is there
unfoldable pub validate_interval_shape : PhaseInterval → ℤ → Option OpError
unfolding validate_phase_label
validate_interval_shape iv eligible = or_else (validate_phase_label iv.global_phase) (
    if ltb_ℤ iv.start (pos 0)
    then some (OpError.invalid_bounds iv)
    else if leb_ℤ iv.end_second iv.start
    then some (OpError.invalid_bounds iv)
    else if ltb_ℤ (pos 0) eligible && ltb_ℤ eligible iv.end_second
    then some (OpError.exceeds_eligible iv)
    else none)

abbrev pub is_laning : PhaseInterval → Bool
is_laning iv = str_eq iv.global_phase "laning"

abbrev pub earlier : PhaseInterval → PhaseInterval → Bool
earlier a b = ltb_ℤ a.start b.start

-- sort.Slice by the start second
unfoldable pub sorted : List PhaseInterval → List PhaseInterval
unfolding sort_by
sorted ivs = sort_by earlier ivs

-- What the loop of validateStream carries: whether an interval came before, the end of the last one,
-- and whether laning was seen and left.
pub record Scan : Type 0 where
  pub later : Bool
  pub prev_end : ℤ
  pub seen_laning : Bool
  pub saw_laning_exit : Bool

abbrev pub interval_error : Scan → PhaseInterval → Option OpError
interval_error s iv =
    if not (is_official iv.global_phase)
    then some (OpError.invalid_label iv.global_phase)
    else if leb_ℤ iv.end_second iv.start
    then some (OpError.zero_width iv)
    else if s.later && ltb_ℤ iv.start s.prev_end
    then some (OpError.overlap iv)
    else if ltb_ℤ s.prev_end iv.start
    then some (OpError.gap iv)
    else if is_laning iv && s.saw_laning_exit
    then some OpError.laning_reentry
    else none

abbrev pub passed_interval : Scan → PhaseInterval → Scan
passed_interval s iv = record {
  later = true;
  prev_end = iv.end_second;
  seen_laning = if is_laning iv then true else s.seen_laning;
  saw_laning_exit =
      if is_laning iv then s.saw_laning_exit else if s.seen_laning then true else s.saw_laning_exit;
}

unfoldable pub validate_intervals : Scan → List PhaseInterval → Option OpError
unfolding is_official
validate_intervals s [] = none
validate_intervals s (iv ∷ ivs) =
    or_else (interval_error s iv) (validate_intervals (passed_interval s iv) ivs)

abbrev pub last_of : PhaseInterval → List PhaseInterval → PhaseInterval
last_of iv [] = iv
last_of iv (next ∷ ivs) = last_of next ivs

abbrev pub first_scan : Scan
first_scan = record {
  later = false;
  prev_end = pos 0;
  seen_laning = false;
  saw_laning_exit = false;
}

-- validateStream, of intervals that it has sorted
unfoldable pub validate_sorted : List PhaseInterval → ℤ → Option OpError
unfolding validate_intervals
validate_sorted [] eligible = some OpError.stream_empty
validate_sorted (iv ∷ ivs) eligible =
    if not (eqb_ℤ iv.start (pos 0))
    then some (OpError.first_start iv)
    else if not (eqb_ℤ (last_of iv ivs).end_second eligible)
    then some (OpError.final_end (last_of iv ivs))
    else validate_intervals first_scan (iv ∷ ivs)
