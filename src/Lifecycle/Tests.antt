-- ===== src/Lifecycle/Tests.antt =====
-- One shutdown of internal/lifecycle/runner.go: a signal, and a Shutdown that runs out of time.
use mathlib.Core.Logic.{◌↔◌}
use dota2_ob.Prelude.{◌≡◌, true, false, none, [], ◌∷◌, ◌++◌}
use dota2_ob.Lifecycle.{Answers, signal, server_closed, close_raw, is_failure, run}
use dota2_ob.Lifecycle.Shutdown.{
  count_if, is_close_raw, is_wait, before, run_closes_last, run_error_none,
}

abbrev late : Answers
late = record {
  wake = signal;
  serve = server_closed;
  shutdown_fine = false;
  retry_fine = true;
  raw_close_fine = true;
}

run_closes_last_example :
    (count_if is_close_raw (run true late).0 ≡ 1)
    × ((run true late).0 ≡ before is_close_raw (run true late).0 ++ close_raw ∷ [])
    × (count_if is_wait (before is_close_raw (run true late).0) ≡ 1)
run_closes_last_example = run_closes_last true late

run_error_none_example :
    ((run true late).1 ≡ none)
    ↔ ((true ≡ true) × (false ≡ true) × (is_failure server_closed ≡ false))
run_error_none_example = run_error_none true late
