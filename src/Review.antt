-- ===== src/Review.antt =====
-- internal/replay/review/phase_ops.go: the operations by which a reviewer edits the stream of phases.
-- An error is a constructor with what its text names, and JSON is not modelled. sort.Slice keeps the
-- order of intervals with the same start.
pub mod Stream
pub mod Refs
pub mod Edits
pub mod Valid
pub mod Accepted
mod Tests
use dota2_ob.Prelude.{
  String, Bool, true, false, Option, none, some, List, [], ◌∷◌, is_empty, if◌then◌else◌, str_eq,
}
use dota2_ob.Prelude.Int.{pos, leb_ℤ, ℤ}
use dota2_ob.Review.Stream.{PhaseInterval, OpError, sorted, validate_sorted}
use dota2_ob.Review.Edits.{
  PhaseOpReq, Edited, apply_accept, apply_relabel, apply_split, apply_merge, apply_move, apply_add,
  apply_delete,
}
use dota2_ob.Review.Edits.Edited.{edited, refused}

-- IsStale, of the errors of the operations
unfoldable pub is_stale : OpError → Bool
is_stale (OpError.not_found ref) = true
is_stale (OpError.not_covered iv) = true
is_stale e = false

-- The switch on the operation.
unfoldable pub run_operation : List PhaseInterval → PhaseOpReq → Edited
unfolding apply_accept apply_relabel apply_split apply_merge apply_move apply_add apply_delete
run_operation work req =
    if str_eq req.op "accept"
    then apply_accept work req
    else if str_eq req.op "relabel"
    then apply_relabel work req
    else if str_eq req.op "split"
    then apply_split work req
    else if str_eq req.op "merge"
    then apply_merge work req
    else if str_eq req.op "move"
    then apply_move work req
    else if str_eq req.op "add"
    then apply_add work req
    else if str_eq req.op "delete"
    then apply_delete work req
    else refused (OpError.unknown_operation req.op)

abbrev pub if_valid : List PhaseInterval → Option OpError → Edited
if_valid work none = edited work
if_valid work (some e) = refused e

-- validateStream, which sorts the stream that it is given
abbrev pub validated : ℤ → Edited → Edited
validated eligible (refused e) = refused e
validated eligible (edited work) = if_valid (sorted work) (validate_sorted (sorted work) eligible)

-- Apply
unfoldable pub apply : List PhaseInterval → PhaseOpReq → Edited
unfolding run_operation sorted validate_sorted
apply base req =
    if leb_ℤ req.eligible_seconds (pos 0)
    then refused OpError.eligible_required
    else if is_empty base
    then refused OpError.empty_stream
    else validated req.eligible_seconds (run_operation (sorted base) req)
