-- ===== src/Session/Run.antt =====
-- Any number of Appends, one after the other: the file is the journal of what they returned.
use mathlib.Core.Path.{subst}
use mathlib.Core.Bool.{false≢true}
use dota2_ob.Prelude.{
  ℕ, ◌+◌, ◌%◌, ◌≡◌, refl, sym, ap, ◌∙◌, inl, inr, Bool-cases, Option-cases, true, false, ◌||◌, none,
  some, List, [], ◌∷◌, ◌++◌, append-nil, append_assoc, arith, All,
}
use dota2_ob.Prelude.Time.{u64_mod}
use dota2_ob.Session.{
  Bytes, FileOps, Record, Codec, Err, append_failed, invalid_json, store_sealed, AppendResult,
  appended, failed, Store, Attempt, open_error, decode_json, append,
}
use dota2_ob.Session.Journal.{FileLaws, disk, line_of, Outcome, OpensAt, append-Outcome}

module _ {F J : Type 0} (ops : FileOps F) (codec : Codec J) where
  abbrev pub keep : AppendResult J → List (Record J) → List (Record J)
  keep (appended r) rs = r ∷ rs
  keep (failed e) rs = rs

  -- The store after the attempts, and the records that they returned.
  unfoldable pub appends : Store F → List (Attempt F) → Store F × List (Record J)
  appends s [] = (s, [])
  appends s (a ∷ attempts) =
      let (s', result) = append ops codec s a in
      let (s'', records) = appends s' attempts in (s'', keep result records)

-- The lines of records, one after the other.
unfoldable pub lines_of : {J : Type 0} → Codec J → List (Record J) → Bytes
lines_of codec [] = []
lines_of codec (r ∷ rs) = line_of codec r ++ lines_of codec rs

-- The sequence numbers go up by one from `n`, as uint64.
abbrev pub Consecutive : {J : Type 0} → ℕ → List (Record J) → Type 0
Consecutive n [] = Unit
Consecutive n (r ∷ rs) = (r.sequence ≡ (n + 1) % u64_mod) × Consecutive r.sequence rs

module _ {F J : Type 0} (ops : FileOps F) (codec : Codec J) where
  sealed-append :
      (s : Store F) (a : Attempt F) → s.sealed ≡ true → (append ops codec s a).0.sealed ≡ true
  unfolding append
  sealed-append s a h = elim (Option-cases (decode_json codec a.raw)) [
    | inl bad ↦ rw bad h
    | inr (payload, good) ↦
        let shut : (s.sealed || s.closed) ≡ true = ground arith in rw good (rw shut h)
  ]

  pub sealed-appends :
      (s : Store F) (attempts : List (Attempt F))
      → s.sealed ≡ true
      → (appends ops codec s attempts).0.sealed ≡ true
  unfolding appends
  sealed-appends s [] h = h
  sealed-appends s (a ∷ attempts) h =
      sealed-appends (append ops codec s a).0 attempts (sealed-append s a h)

module _ {F J : Type 0} (ops : FileOps F) (codec : Codec J) where
  -- A file value whose Seek always fails, as a nil *os.File does.
  abbrev pub IsNil : F → Type 0
  IsNil f = ops.seek_end f ≡ (f, none)

  stuck_step :
      (s : Store F) (f : F) (a : Attempt F)
      → IsNil f
      → s.file ≡ some f
      → ((append ops codec s a).0.file ≡ some f)
        × ((e : Err) × ((append ops codec s a).1 ≡ failed e))
  unfolding append
  stuck_step s f a nil e = elim (Option-cases (decode_json codec a.raw)) [
    | inl bad ↦ rw bad (e, (invalid_json, refl))
    | inr (payload, good) ↦ rw good (elim (Bool-cases (s.sealed || s.closed)) [
      | inl shut ↦ rw shut (e, (store_sealed, refl))
      | inr free ↦ rw free (rw (e, nil) (refl, (append_failed, refl)))
    ])
  ]

  stuck :
      (s : Store F) (f : F) (attempts : List (Attempt F))
      → IsNil f
      → s.file ≡ some f
      → (appends ops codec s attempts).1 ≡ []
  unfolding appends
  stuck s f [] nil e = refl
  stuck s f (a ∷ attempts) nil e =
      let (file, (err, result)) = stuck_step s f a nil e in
      rw result (stuck (append ops codec s a).0 f attempts nil file)

  open_fails :
      (s : Store F) (a : Attempt F) (f : F) (payload : J)
      → s.file ≡ none
      → s.sealed ≡ false
      → s.closed ≡ false
      → decode_json codec a.raw ≡ some payload
      → a.opened ≡ open_error (some f)
      → append ops codec s a ≡ (record s { file = some f }, failed append_failed)
  unfolding append
  open_fails s a f payload unopened unsealed unclosed good failing =
      let free : (s.sealed || s.closed) ≡ false = ground arith in
      rw good (rw free (rw (unopened, failing)))

  -- When the first open of an unopened and unsealed store that is not closed fails and hands out a nil file
  -- beside the error, the Append of a good snapshot fails, and no later Append succeeds, whatever
  -- the later opens would give.
  pub open_error_sticks :
      (s : Store F) (a : Attempt F) (f : F) (payload : J) (attempts : List (Attempt F))
      → s.file ≡ none
      → s.sealed ≡ false
      → s.closed ≡ false
      → decode_json codec a.raw ≡ some payload
      → a.opened ≡ open_error (some f)
      → IsNil f
      → ((append ops codec s a).1 ≡ failed append_failed)
        × ((appends ops codec (append ops codec s a).0 attempts).1 ≡ [])
  open_error_sticks s a f payload attempts unopened unsealed unclosed good failing nil =
      let e : append ops codec s a ≡ (record s { file = some f }, failed append_failed) =
        open_fails s a f payload unopened unsealed unclosed good failing in
      (ap (λ o. o.1) e, rw e (stuck (record s { file = some f }) f attempts nil refl))

module _ {F J : Type 0} (ops : FileOps F) (codec : Codec J) (content : F → Bytes)
    (laws : FileLaws ops content) (base : Bytes) where
  journal_step :
      (s s' : Store F) (result : AppendResult J) (t : Store F) (records : List (Record J))
      → Outcome ops codec content laws base s s' result
      → (s'.sealed ≡ true → t.sealed ≡ true)
      → t.sealed ≡ false
      → (disk content base t.file ≡ disk content base s'.file ++ lines_of codec records)
        × Consecutive s'.sequence records
      → (disk content base t.file
          ≡ disk content base s.file ++ lines_of codec (keep ops codec result records))
        × Consecutive s.sequence (keep ops codec result records)
  unfolding lines_of
  journal_step s s' (appended r) t records o up h rest = (
    rw (rest.0, o.0)
        (append_assoc (disk content base s.file) (line_of codec r) (lines_of codec records)),
    (o.2, subst (λ n. Consecutive n records) o.1 rest.1),
  )
  journal_step s s' (failed e) t records o up h rest = elim o.1 [
    | inl shut ↦ absurd (false≢true (sym h ∙ up shut))
    | inr same ↦ (
      rest.0 ∙ ap (λ bytes. bytes ++ lines_of codec records) same,
      subst (λ n. Consecutive n records) o.0 rest.1,
    )
  ]

  -- If every open hands out a file with the bytes `base` and the store is not sealed at the end,
  -- its file holds what it held and then the lines of exactly the records that Append returned, in
  -- order and with consecutive sequence numbers.
  pub journal :
      (s : Store F) (attempts : List (Attempt F))
      → All (λ a. OpensAt ops codec content laws base a.opened) attempts
      → (appends ops codec s attempts).0.sealed ≡ false
      → (disk content base (appends ops codec s attempts).0.file
          ≡ disk content base s.file ++ lines_of codec (appends ops codec s attempts).1)
        × Consecutive s.sequence (appends ops codec s attempts).1
  unfolding appends lines_of
  journal s [] opens h = (sym (append-nil _), tt)
  journal s (a ∷ attempts) opens h =
      let (s', result) = append ops codec s a in
      journal_step s s' result (appends ops codec s' attempts).0 (appends ops codec s' attempts).1
        (append-Outcome ops codec content laws base s a opens.0)
        (sealed-appends ops codec s' attempts) h (journal s' attempts opens.1 h)
