-- ===== src/Gsi/Balance.antt =====
-- The counters of a server over any number of requests, answered one after the other.
use dota2_ob.Prelude.{
  ◌+◌, ◌%◌, ◌≡◌, refl, inl, inr, Bool-cases, String, Bool, true, false, Option, some, List, [], ◌∷◌,
  arith, str_eq, eq_iff,
}
use dota2_ob.Prelude.Time.{Time, Duration, u64_mod}
use dota2_ob.Operator.{Tracker, new_tracker}
use dota2_ob.Session.{Bytes, Record, AppendResult}
use dota2_ob.Capture.{Readings}
use dota2_ob.Gsi.{Status, Server, handle_gsi}
use dota2_ob.Gsi.Accounts.{Accounted, handle_gsi-Accounted}

-- One request, with the clock readings that its handling makes.
pub record HttpCall : Type 0 where
  pub now : Time
  pub at : Readings
  pub method : String
  pub body : Option Bytes

abbrev Balanced : Tracker → Type 0
Balanced t = t.request_count ≡ (t.accepted_count + t.rejected_count + t.raw_failures) % u64_mod

Balanced-Accounted :
    (t t' : Tracker) (answer : Status) → Accounted t t' answer → Balanced t → Balanced t'
Balanced-Accounted t t' answer a b = ground arith

module _ {A P J : Type 0} (append_raw : A → Bytes → A × AppendResult J)
    (apply_projection : P → Record J → P × Bool) where
  unfoldable pub serve : List HttpCall → Server A P → Server A P
  serve [] s = s
  serve (c ∷ cs) s =
      serve cs (handle_gsi append_raw apply_projection c.now c.at c.method c.body s).0

  -- A server with a store and a balanced tracker.
  abbrev IsBalanced : Server A P → Type 0
  IsBalanced s =
      (t : Tracker) × (s.processor.tracker ≡ some t) × (s.store_configured ≡ true) × Balanced t

  not_posted :
      (c : HttpCall) (s : Server A P)
      → str_eq c.method "POST" ≡ false
      → (handle_gsi append_raw apply_projection c.now c.at c.method c.body s).0 ≡ s
  unfolding handle_gsi
  not_posted c s h = rw h

  handle_gsi-IsBalanced :
      (c : HttpCall) (s : Server A P)
      → IsBalanced s
      → IsBalanced (handle_gsi append_raw apply_projection c.now c.at c.method c.body s).0
  handle_gsi-IsBalanced c s (t, watched, configured, b) =
      elim (Bool-cases (str_eq c.method "POST")) [
        | inl post ↦
            let (t', tracked, done, kept) =
              handle_gsi-Accounted append_raw apply_projection c.now c.at c.body s t watched
                configured in
            rw ((eq_iff c.method "POST").0 post) (
              t',
              tracked,
              kept,
              Balanced-Accounted t t'
                  (handle_gsi append_raw apply_projection c.now c.at "POST" c.body s).1 done b,
            )
        | inr other ↦ rw (not_posted c s other) (t, watched, configured, b)
      ]

  serve-IsBalanced : (cs : List HttpCall) (s : Server A P) → IsBalanced s → IsBalanced (serve cs s)
  unfolding serve
  serve-IsBalanced [] s b = b
  serve-IsBalanced (c ∷ cs) s b =
      serve-IsBalanced cs (handle_gsi append_raw apply_projection c.now c.at c.method c.body s).0
        (handle_gsi-IsBalanced c s b)

  -- After any requests to a server that starts with a store and a new tracker, the number of POSTs
  -- counted is the sum of the accepted snapshots, the rejected ones and the failures of the raw
  -- store, as uint64.
  pub serve_balance :
      (cs : List HttpCall) (s : Server A P) (id : String) (start : Time) (threshold : Duration)
      → s.processor.tracker ≡ some (new_tracker id start threshold)
      → s.store_configured ≡ true
      → (t : Tracker) × ((serve cs s).processor.tracker ≡ some t)
        × (t.request_count ≡ (t.accepted_count + t.rejected_count + t.raw_failures) % u64_mod)
  serve_balance cs s id start threshold watched configured =
      let (t, tracked, kept, b) =
        serve-IsBalanced cs s
          (new_tracker id start threshold, watched, configured, unfold new_tracker in refl) in
      (t, tracked, b)
