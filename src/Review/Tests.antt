-- ===== src/Review/Tests.antt =====
-- A stream of three phases, and reviews of it.
use mathlib.Core.Logic.{◌↔◌}
use dota2_ob.Prelude.{false, is_empty, ◌≡◌, refl, String, Option, none, some, List, [], ◌∷◌}
use dota2_ob.Prelude.Int.{ℤ, pos, leb_ℤ}
use dota2_ob.Review.{apply}
use dota2_ob.Review.Stream.{PhaseInterval, OpError}
use dota2_ob.Review.Edits.{PhaseOpReq}
use dota2_ob.Review.Edits.Edited.{edited, refused}
use dota2_ob.Review.Valid.{IsStream}
use dota2_ob.Review.Accepted.{Reaches, apply_iff}

abbrev phase : ℤ → ℤ → String → String → PhaseInterval
phase start end_second global_phase ref = record {
  start = start;
  end_second = end_second;
  global_phase = global_phase;
  round_index = pos 0;
  event_ref = ref;
}

abbrev machine : List PhaseInterval
machine =
    phase (pos 600) (pos 1500) "midgame" ""
    ∷ phase (pos 0) (pos 600) "laning" ""
    ∷ phase (pos 1500) (pos 1800) "decisive" ""
    ∷ []

abbrev request : String → String → Option PhaseInterval → PhaseOpReq
request op event_ref effective = record {
  match_id = "42";
  author = "r";
  reason = "";
  op = op;
  shape_version = "";
  event_ref = event_ref;
  effective = effective;
  split_second = some (pos 700);
  merge_right = "1500-1800";
  absorb_into = "interval@600";
  evidence_ids = [];
  eligible_seconds = pos 1800;
  expected_revision = "";
}

abbrev moved : PhaseOpReq
moved = request "move" "interval@600-1500" (some (phase (pos 500) (pos 1500) "" ""))

abbrev after_move : List PhaseInterval
after_move =
    phase (pos 0) (pos 500) "laning" "interval@0-500"
    ∷ phase (pos 500) (pos 1500) "midgame" "interval@500-1500"
    ∷ phase (pos 1500) (pos 1800) "decisive" ""
    ∷ []

run_move : apply machine moved ≡ edited after_move
unfolding apply
run_move = refl

apply_iff_example : (apply machine moved ≡ edited after_move) ↔ (
    (leb_ℤ (pos 1800) (pos 0) ≡ false)
    × (is_empty machine ≡ false)
    × Reaches machine moved after_move
    × IsStream (pos 1800) after_move)
apply_iff_example = apply_iff machine moved after_move

-- The laning phase does not come back, and an interval that is gone is stale.
run_relabel :
    apply after_move
      (request "relabel" "1500-1800" (some (phase (pos 1500) (pos 1800) "laning" "")))
    ≡ refused OpError.laning_reentry
unfolding apply
run_relabel = refl

run_split :
    apply after_move (request "split" "600-1500" none) ≡ refused (OpError.not_found "600-1500")
unfolding apply
run_split = refl
