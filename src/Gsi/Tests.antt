-- ===== src/Gsi/Tests.antt =====
-- Requests to internal/gsi/server.go over a journal that takes every snapshot but the empty one.
use dota2_ob.Prelude.{
  ℕ, ◌+◌, ◌%◌, ◌≡◌, refl, Bool, true, false, Option, none, some, List, [], ◌∷◌, arith,
}
use dota2_ob.Prelude.Int.{pos}
use dota2_ob.Prelude.Time.{u64_mod}
use dota2_ob.Operator.{Tracker, new_tracker}
use dota2_ob.Session.{Bytes, Record, append_failed, AppendResult, appended, failed}
use dota2_ob.Capture.{Processor, Readings, process}
use dota2_ob.Capture.Outcomes.{Processed, process-Processed}
use dota2_ob.Gsi.{Server, handle_gsi}
use dota2_ob.Gsi.Accounts.{Served, handle_gsi-Accounted}
use dota2_ob.Gsi.Balance.{HttpCall, serve, serve_balance}
use dota2_ob.Gsi.Inflight.{
  World, admit, refuse, finish, stop, sleep, pass, Reach, here, next, started, enter, leave,
  begin_wait, wait_done, fall_asleep, end_wait, wait_drains, wait_can_return,
}

abbrev taken : ℕ → Bytes → Record ℕ
taken n raw = record {
  schema_version = 2;
  session_id = "match";
  sequence = n;
  received_at = pos 5;
  source = "gsi";
  payload = n;
  raw = raw;
}

abbrev append_raw : ℕ → Bytes → ℕ × AppendResult ℕ
append_raw n [] = (n, failed append_failed)
append_raw n (b ∷ raw) = (n + 1, appended (taken (n + 1) (b ∷ raw)))

-- A projection is its flag.
abbrev apply_projection : Bool → Record ℕ → Bool × Bool
apply_projection fine r = (fine, fine)

abbrev tracker : Tracker
tracker = new_tracker "match" (pos 0) (pos 0)

abbrev processor : Processor ℕ Bool
processor = record {
  appender = 0;
  tracker = some tracker;
  latest = some true;
  profile = none;
  analytics = some false;
  logged = [];
}

abbrev readings : Readings
readings = record { raw_at = pos 6; latest_at = pos 7; profile_at = pos 8; analytics_at = pos 9 }

abbrev server : Server ℕ Bool
server = record { store_configured = true; processor = processor }

process-Processed_example :
    ((process append_raw apply_projection readings (1 ∷ []) processor).1
      ≡ appended (taken 1 (1 ∷ [])))
    × ((t' : Tracker) × ((process append_raw apply_projection readings (1 ∷ []) processor).0.tracker
          ≡ some t')
        × Processed append_raw apply_projection readings processor tracker t' (taken 1 (1 ∷ [])))
process-Processed_example =
    process-Processed append_raw apply_projection readings (1 ∷ []) processor tracker
      (taken 1 (1 ∷ [])) refl refl

handle_gsi-Accounted_example :
    Served append_raw apply_projection
      (pos 1)
      readings
      tracker
      (handle_gsi append_raw apply_projection (pos 1) readings "POST" (some []) server)
handle_gsi-Accounted_example =
    handle_gsi-Accounted append_raw apply_projection (pos 1) readings (some []) server tracker refl
      refl

abbrev post : Option Bytes → HttpCall
post body = record { now = pos 1; at = readings; method = "POST"; body = body }

abbrev requests : List HttpCall
requests = post (some (1 ∷ [])) ∷ post none ∷ post (some []) ∷ post (some (2 ∷ [])) ∷ []

serve_balance_example :
    (t : Tracker) × ((serve append_raw apply_projection requests server).processor.tracker ≡ some t)
    × (t.request_count ≡ (t.accepted_count + t.rejected_count + t.raw_failures) % u64_mod)
serve_balance_example =
    serve_balance append_raw apply_projection requests server "match" (pos 0) (pos 0) refl refl

abbrev busy : World
busy = record {
  gate = record { inflight = 1; stopping = true; ready = 0; sleeping = 1 };
  running = 1;
  waiting = true;
  returned = false;
}

abbrev idle : World
idle = record {
  gate = record { inflight = 0; stopping = true; ready = 0; sleeping = 0 };
  running = 0;
  waiting = true;
  returned = true;
}

-- A request comes in, Wait is called, and it goes to sleep.
started-busy : Reach started busy
unfolding enter begin_wait wait_done fall_asleep
started-busy = next (next (next here (admit _ refl)) (stop _)) (sleep _ (ground arith) refl)

-- The request ends and wakes it up, a late one is refused, and Wait returns.
started-idle : Reach started idle
unfolding enter leave wait_done end_wait
started-idle =
    next (next (next started-busy (finish _ (ground arith))) (refuse _ refl))
      (pass _ (ground arith) refl)

wait_drains_example : (idle.running ≡ 0) × ((enter idle.gate).1 ≡ false)
wait_drains_example = wait_drains started-idle refl

wait_can_return_example :
    (x : World) × Reach busy x × (x.returned ≡ true) × (x.gate.ready + x.gate.sleeping ≡ 0)
wait_can_return_example = wait_can_return started-busy refl
