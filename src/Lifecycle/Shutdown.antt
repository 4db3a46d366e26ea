-- ===== src/Lifecycle/Shutdown.antt =====
-- The order of the calls at the end of the process, and its exit error.
use mathlib.Core.Logic.{◌↔◌}
use dota2_ob.Prelude.{
  ℕ, ◌+◌, ◌≡◌, Bool, true, false, none, List, [], ◌∷◌, ◌++◌, arith, if◌then◌else◌,
}
use dota2_ob.Lifecycle.{is_failure, Answers, Action, wait, close_raw, run}

abbrev pub is_wait : Action → Bool
is_wait wait = true
is_wait _ = false

abbrev pub is_close_raw : Action → Bool
is_close_raw close_raw = true
is_close_raw _ = false

abbrev pub count_if : (Action → Bool) → List Action → ℕ
count_if p [] = 0
count_if p (c ∷ cs) = (if p c then 1 else 0) + count_if p cs

-- The calls before the first that fits.
abbrev pub before : (Action → Bool) → List Action → List Action
before p [] = []
before p (c ∷ cs) = let rest = before p cs in if p c then [] else c ∷ rest

-- However the server ends and whatever fails, the journal is closed exactly once and nothing is
-- called after it; with a waiter, the requests in flight are waited for exactly once and before that.
pub run_closes_last :
    (waiter : Bool) (a : Answers)
    → (count_if is_close_raw (run waiter a).0 ≡ 1)
      × ((run waiter a).0 ≡ before is_close_raw (run waiter a).0 ++ close_raw ∷ [])
      × (count_if is_wait (before is_close_raw (run waiter a).0) ≡ (if waiter then 1 else 0))
unfolding run
run_closes_last waiter a = ground arith

-- The exit error is absent exactly if the journal was closed, the first Shutdown worked and Serve
-- did not fail.
pub run_error_none :
    (waiter : Bool) (a : Answers)
    → ((run waiter a).1 ≡ none)
      ↔ ((a.raw_close_fine ≡ true) × (a.shutdown_fine ≡ true) × (is_failure a.serve ≡ false))
unfolding run
run_error_none waiter a = ground arith
