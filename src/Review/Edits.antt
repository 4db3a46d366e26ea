-- ===== src/Review/Edits.antt =====
-- The operations on a stream of internal/replay/review/phase_ops.go, of which each gives the edited
-- stream or an error. A slice that the code changes in place is the list with the changed item.
use dota2_ob.Prelude.{
  ℕ, zero, suc, String, Bool, not, ◌&&◌, ◌||◌, Option, none, some, List, [], ◌∷◌, ◌++◌, ◌==◌, ltb,
  take, drop, if◌then◌else◌, str_eq,
}
use dota2_ob.Prelude.Int.{ℤ, ltb_ℤ, leb_ℤ, eqb_ℤ}
use dota2_ob.Review.Stream.{PhaseInterval, OpError, validate_phase_label, validate_interval_shape}
use dota2_ob.Review.Refs.{canonical_event_ref, with_ref, find_from, find_by_ref}

pub record PhaseOpReq : Type 0 where
  pub match_id : String
  pub author : String
  pub reason : String
  pub op : String
  pub shape_version : String
  pub event_ref : String
  pub effective : Option PhaseInterval
  pub split_second : Option ℤ
  pub merge_right : String
  pub absorb_into : String
  pub evidence_ids : List String
  pub eligible_seconds : ℤ
  pub expected_revision : String

pub data Edited : Type 0 where
  edited : List PhaseInterval → Edited
  refused : OpError → Edited

abbrev of_found : String → Option (ℕ × PhaseInterval) → (ℕ → PhaseInterval → Edited) → Edited
of_found ref none k = refused (OpError.not_found ref)
of_found ref (some (i, iv)) k = k i iv

-- The target of a reference; a stale one is an error.
abbrev pub with_target : List PhaseInterval → String → (ℕ → PhaseInterval → Edited) → Edited
with_target work ref k = of_found ref (find_by_ref work ref) k

abbrev pub required : {A : Type 0} → OpError → Option A → (A → Edited) → Edited
required e none k = refused e
required e (some a) k = k a

abbrev pub unless_error : Option OpError → Edited → Edited
unless_error none x = x
unless_error (some e) x = refused e

-- work[:i], then `ivs`, then work[j:]
abbrev pub splice : ℕ → List PhaseInterval → ℕ → List PhaseInterval → List PhaseInterval
splice i ivs j work = take i work ++ ivs ++ drop j work

-- work[i] = iv
abbrev pub put : ℕ → PhaseInterval → List PhaseInterval → List PhaseInterval
put i iv work = splice i (iv ∷ []) (suc i) work

unfoldable pub nth : ℕ → List PhaseInterval → Option PhaseInterval
nth i [] = none
nth zero (iv ∷ ivs) = some iv
nth (suc i) (iv ∷ ivs) = nth i ivs

-- applyAccept
unfoldable pub apply_accept : List PhaseInterval → PhaseOpReq → Edited
unfolding find_by_ref
apply_accept work req = with_target work req.event_ref (λ i target. edited work)

abbrev relabel : List PhaseInterval → ℕ → PhaseInterval → PhaseInterval → Edited
relabel work i target eff =
    if not (eqb_ℤ eff.start target.start) || not (eqb_ℤ eff.end_second target.end_second)
    then refused (OpError.boundaries_changed eff)
    else unless_error (validate_phase_label eff.global_phase)
        (edited (put i (with_ref (record target { global_phase = eff.global_phase })) work))

-- applyRelabel
unfoldable pub apply_relabel : List PhaseInterval → PhaseOpReq → Edited
unfolding find_by_ref validate_phase_label canonical_event_ref
apply_relabel work req =
    with_target work req.event_ref
      (λ i target. required OpError.effective_required req.effective (relabel work i target))

abbrev split : List PhaseInterval → ℕ → PhaseInterval → ℤ → Edited
split work i target s =
    if leb_ℤ s target.start || leb_ℤ target.end_second s
    then refused (OpError.invalid_split target)
    else edited (
        splice i
          (with_ref (record target { end_second = s })
            ∷ with_ref (record target { start = s })
            ∷ [])
          (suc i) work)

-- applySplit
unfoldable pub apply_split : List PhaseInterval → PhaseOpReq → Edited
unfolding find_by_ref canonical_event_ref
apply_split work req =
    with_target work req.event_ref
      (λ i target. required OpError.split_required req.split_second (split work i target))

-- The label of the request, or else that of the left interval.
abbrev merge_label : Option PhaseInterval → PhaseInterval → String
merge_label none l = l.global_phase
merge_label (some eff) l = if str_eq eff.global_phase "" then l.global_phase else eff.global_phase

abbrev merge_ordered :
    List PhaseInterval → Option PhaseInterval → ℕ → PhaseInterval → ℕ → PhaseInterval → Edited
merge_ordered work eff li l ri r =
    if not (eqb_ℤ l.end_second r.start)
    then refused OpError.intervals_apart
    else unless_error (validate_phase_label (merge_label eff l)) (
        edited (
          splice li
            (with_ref (record l { end_second = r.end_second; global_phase = merge_label eff l })
              ∷ [])
            (suc ri) work))

abbrev merge :
    List PhaseInterval → Option PhaseInterval → ℕ → PhaseInterval → ℕ → PhaseInterval → Edited
merge work eff li l ri r =
    if li == ri
    then refused OpError.same_interval
    else if ltb ri li
    then merge_ordered work eff ri r li l
    else merge_ordered work eff li l ri r

-- applyMerge
unfoldable pub apply_merge : List PhaseInterval → PhaseOpReq → Edited
unfolding find_by_ref validate_phase_label canonical_event_ref
apply_merge work req =
    with_target work req.event_ref
      (λ li l. with_target work req.merge_right (λ ri r. merge work req.effective li l ri r))

abbrev pred : ℕ → ℕ
pred zero = zero
pred (suc i) = i

abbrev left_of : ℕ → List PhaseInterval → Option PhaseInterval
left_of zero work = none
left_of (suc i) work = nth i work

abbrev move_start : List PhaseInterval → ℕ → PhaseInterval → PhaseInterval → PhaseInterval → Edited
move_start work i target eff left =
    if leb_ℤ eff.start left.start || leb_ℤ target.end_second eff.start
    then refused (OpError.invalid_boundary eff)
    else edited (
        put i (with_ref (record target { start = eff.start }))
          (put (pred i) (with_ref (record left { end_second = eff.start })) work))

abbrev move_end : List PhaseInterval → ℕ → PhaseInterval → PhaseInterval → PhaseInterval → Edited
move_end work i target eff right =
    if leb_ℤ eff.end_second target.start || leb_ℤ right.end_second eff.end_second
    then refused (OpError.invalid_boundary eff)
    else edited (
        put i (with_ref (record target { end_second = eff.end_second }))
          (put (suc i) (with_ref (record right { start = eff.end_second })) work))

abbrev move : List PhaseInterval → ℕ → PhaseInterval → PhaseInterval → Edited
move work i target eff =
    let moved_start = not (eqb_ℤ eff.start target.start) in
    let moved_end = not (eqb_ℤ eff.end_second target.end_second) in
    if not (str_eq eff.global_phase "") && not (str_eq eff.global_phase target.global_phase)
    then refused OpError.relabelled
    else if moved_start && moved_end
    then refused OpError.two_boundaries
    else if moved_start
    then required OpError.no_left_neighbor (left_of i work) (move_start work i target eff)
    else if moved_end
    then required OpError.no_right_neighbor (nth (suc i) work) (move_end work i target eff)
    else refused OpError.boundary_unchanged

-- applyMove
unfoldable pub apply_move : List PhaseInterval → PhaseOpReq → Edited
unfolding find_by_ref nth canonical_event_ref
apply_move work req =
    with_target work req.event_ref
      (λ i target. required OpError.effective_required req.effective (move work i target))

-- The parts that are not empty.
unfoldable pub wide : List PhaseInterval → List PhaseInterval
unfolding canonical_event_ref
wide [] = []
wide (p ∷ ps) = if ltb_ℤ p.start p.end_second then with_ref p ∷ wide ps else wide ps

abbrev parts_of : PhaseInterval → PhaseInterval → List PhaseInterval
parts_of orig iv =
    record orig { end_second = iv.start }
    ∷ record orig { start = iv.start; end_second = iv.end_second; global_phase = iv.global_phase }
    ∷ record orig { start = iv.end_second }
    ∷ []

abbrev covers : PhaseInterval → PhaseInterval → Bool
covers iv w = leb_ℤ w.start iv.start && leb_ℤ iv.end_second w.end_second

abbrev add_into : List PhaseInterval → PhaseInterval → Option (ℕ × PhaseInterval) → Edited
add_into work iv none = refused (OpError.not_covered iv)
add_into work iv (some (i, orig)) =
    if eqb_ℤ iv.start orig.start && eqb_ℤ iv.end_second orig.end_second
    then edited (put i (with_ref (record orig { global_phase = iv.global_phase })) work)
    else edited (splice i (wide (parts_of orig iv)) (suc i) work)

-- applyAdd
unfoldable pub apply_add : List PhaseInterval → PhaseOpReq → Edited
unfolding validate_interval_shape find_from wide canonical_event_ref
apply_add work req = required OpError.effective_required req.effective (λ iv.
    unless_error (validate_interval_shape iv req.eligible_seconds)
      (add_into work iv (find_from (covers iv) 0 work)))

abbrev without : ℕ → List PhaseInterval → List PhaseInterval
without i work = splice i [] (suc i) work

abbrev absorb : List PhaseInterval → ℕ → PhaseInterval → ℕ → PhaseInterval → Edited
absorb work i target ai absorber =
    if ai == i
    then refused OpError.absorb_itself
    else if eqb_ℤ absorber.end_second target.start
    then edited
        (without i (put ai (with_ref (record absorber { end_second = target.end_second })) work))
    else if eqb_ℤ absorber.start target.end_second
    then edited (without i (put ai (with_ref (record absorber { start = target.start })) work))
    else refused OpError.absorb_apart

-- applyDelete
unfoldable pub apply_delete : List PhaseInterval → PhaseOpReq → Edited
unfolding find_by_ref canonical_event_ref
apply_delete work req =
    if str_eq req.absorb_into ""
    then refused OpError.absorb_required
    else with_target work req.event_ref (λ i target.
      with_target work req.absorb_into (λ ai absorber. absorb work i target ai absorber))
