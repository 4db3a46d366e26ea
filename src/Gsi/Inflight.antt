-- ===== src/Gsi/Inflight.antt =====
-- internal/gsi/server.go, ServeHTTP and Wait: requests in flight, and a stop that lets them finish.
-- Each piece of code that holds inflightMu is one step; the requests and the goroutine in Wait
-- interleave in any order.
use dota2_ob.Prelude.{
  ℕ, zero, suc, ◌+◌, ◌-◌, ◌<◌, ◌≡◌, refl, Bool, true, false, arith, ltb, if◌then◌else◌,
}

-- The fields of Server under inflightMu. Of inflightCond it keeps the calls of Wait that are inside
-- its Wait, and those that are about to test the loop's condition, since they have just begun or
-- have been woken up.
pub record Gate : Type 0 where
  pub inflight : ℕ
  pub stopping : Bool
  pub ready : ℕ
  pub sleeping : ℕ

abbrev pub open_gate : Gate
open_gate = record { inflight = 0; stopping = false; ready = 0; sleeping = 0 }

-- ServeHTTP up to its handler: the request is admitted, or answered 503.
unfoldable pub enter : Gate → Gate × Bool
enter g = if g.stopping then (g, false) else (record g { inflight = g.inflight + 1 }, true)

-- inflightCond.Broadcast(), which wakes up whoever sleeps
abbrev pub broadcast : Gate → Gate
broadcast g = record g { ready = g.ready + g.sleeping; sleeping = 0 }

-- The deferred function of an admitted request. `inflight--` is on an int.
unfoldable pub leave : Gate → Gate
leave g = broadcast (record g { inflight = g.inflight - 1 })

-- Wait up to its loop.
unfoldable pub begin_wait : Gate → Gate
begin_wait g = record g { stopping = true; ready = g.ready + 1 }

-- One test of the loop of Wait: whether it is left.
unfoldable pub wait_done : Gate → Bool
wait_done g = if ltb 0 g.inflight then false else true

-- inflightCond.Wait(), which lets go of the mutex and sleeps until the next broadcast
unfoldable pub fall_asleep : Gate → Gate
fall_asleep g = record g { ready = g.ready - 1; sleeping = g.sleeping + 1 }

-- The end of Wait.
unfoldable pub end_wait : Gate → Gate
end_wait g = record g { ready = g.ready - 1 }

-- The whole process: the gate, the requests that are between enter and leave, whether Wait has been
-- called and whether a call of it has returned.
pub record World : Type 0 where
  pub gate : Gate
  pub running : ℕ
  pub waiting : Bool
  pub returned : Bool

pub data Step : World → World → Type 0 where
  admit :
      (w : World)
      → (enter w.gate).1 ≡ true
      → Step w (record w { gate = (enter w.gate).0; running = w.running + 1 })
  refuse : (w : World) → (enter w.gate).1 ≡ false → Step w (record w { gate = (enter w.gate).0 })
  finish :
      (w : World)
      → 0 < w.running
      → Step w (record w { gate = leave w.gate; running = w.running - 1 })
  stop : (w : World) → Step w (record w { gate = begin_wait w.gate; waiting = true })
  sleep :
      (w : World)
      → 0 < w.gate.ready
      → wait_done w.gate ≡ false
      → Step w (record w { gate = fall_asleep w.gate })
  pass :
      (w : World)
      → 0 < w.gate.ready
      → wait_done w.gate ≡ true
      → Step w (record w { gate = end_wait w.gate; returned = true })

pub data Reach (v : World) : World → Type 0 where
  here : Reach v v
  next : {w x : World} → Reach v w → Step w x → Reach v x

abbrev pub started : World
started = record { gate = open_gate; running = 0; waiting = false; returned = false }

-- What holds between two steps: a call of Wait sleeps only while a request is in flight.
pub record IsSound (w : World) : Type 0 where
  pub counted : w.gate.inflight ≡ w.running
  pub stopped : w.waiting ≡ w.gate.stopping
  pub drained : w.returned ≡ true → (w.running ≡ 0) × (w.gate.stopping ≡ true)
  pub begun : 0 < w.gate.ready + w.gate.sleeping → w.waiting ≡ true
  pub pending : w.waiting ≡ true → w.returned ≡ false → 0 < w.gate.ready + w.gate.sleeping
  pub sleeps : 0 < w.gate.sleeping → 0 < w.running

Step-IsSound : {w x : World} → Step w x → IsSound w → IsSound x
unfolding enter leave begin_wait wait_done fall_asleep end_wait
Step-IsSound (admit w e) s = ground arith
Step-IsSound (refuse w e) s = ground arith
Step-IsSound (finish w e) s = ground arith
Step-IsSound (stop w) s = ground arith
Step-IsSound (sleep w e f) s = ground arith
Step-IsSound (pass w e f) s = ground arith

Reach-IsSound : {v w : World} → IsSound v → Reach v w → IsSound w
Reach-IsSound s here = s
Reach-IsSound s (next r st) = Step-IsSound st (Reach-IsSound s r)

-- Whatever the interleaving, once Wait has returned no request is being handled, and none is
-- admitted any more.
pub wait_drains :
    {w : World} → Reach started w → w.returned ≡ true → (w.running ≡ 0) × ((enter w.gate).1 ≡ false)
unfolding enter
wait_drains {w} r h = let sound : IsSound w = Reach-IsSound (ground arith) r in ground arith

Reach-trans : {u v w : World} → Reach u v → Reach v w → Reach u w
Reach-trans r here = r
Reach-trans r (next q st) = next (Reach-trans r q) st

-- With `n` calls of Wait ready and no request running, they return one after the other.
can_return :
    (n : ℕ) (w : World)
    → IsSound w
    → w.waiting ≡ true
    → w.running ≡ 0
    → w.gate.ready ≡ n
    → (x : World) × Reach w x × (x.returned ≡ true) × (x.gate.ready + x.gate.sleeping ≡ 0)
unfolding wait_done end_wait
can_return zero w s waiting none_running e =
    let returned : w.returned ≡ true = ground arith in (w, here, returned, ground arith)
can_return (suc n) w s waiting none_running e =
    let st : Step w (record w { gate = end_wait w.gate; returned = true }) =
      pass w (omega arith) (ground arith) in
    let (x, r, done, quiet) =
      can_return n (record w { gate = end_wait w.gate; returned = true }) (Step-IsSound st s)
        waiting none_running (omega arith) in
    (x, Reach-trans (next here st) r, done, quiet)

-- With `n` requests running they can finish one after the other, and then Wait can return.
can_drain :
    (n : ℕ) (w : World)
    → IsSound w
    → w.waiting ≡ true
    → w.running ≡ n
    → (x : World) × Reach w x × (x.returned ≡ true) × (x.gate.ready + x.gate.sleeping ≡ 0)
unfolding leave
can_drain zero w s waiting e = can_return w.gate.ready w s waiting e refl
can_drain (suc n) w s waiting e =
    let st : Step w (record w { gate = leave w.gate; running = w.running - 1 }) =
      finish w (omega arith) in
    let (x, r, done, quiet) =
      can_drain n (record w { gate = leave w.gate; running = w.running - 1 }) (Step-IsSound st s)
        waiting (omega arith) in
    (x, Reach-trans (next here st) r, done, quiet)

-- Wherever a run has got to after Wait was called, some continuation of it has every call of Wait
-- return, the sleeping ones woken up by the last requests: none is left asleep or in its loop.
pub wait_can_return :
    {w : World}
    → Reach started w
    → w.waiting ≡ true
    → (x : World) × Reach w x × (x.returned ≡ true) × (x.gate.ready + x.gate.sleeping ≡ 0)
wait_can_return {w} r waiting = can_drain w.running w (Reach-IsSound (ground arith) r) waiting refl
