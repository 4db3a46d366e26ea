-- ===== src/Session/Journal.antt =====
-- What Append leaves in the file: the lines of the records that it returned, in order.
use dota2_ob.Prelude.{
  ℕ, ◌+◌, ◌%◌, ◌≤◌, length-append, ◌≡◌, refl, sym, ap, ◌∙◌, ◌⊎◌, inl, inr, Bool-cases, Option-cases,
  Bool, true, false, ◌&&◌, ◌||◌, Option, none, some, List, [], ◌∷◌, ◌++◌, arith, length, take,
  take-append, ◌==◌,
}
use dota2_ob.Prelude.Time.{u64_mod}
use dota2_ob.Session.{
  Bytes, newline, FileOps, Record, Codec, AppendResult, appended, failed, Store, Attempt, Opened,
  handle, open_error, decode_json, rollback, new_record, after_rollback, after_write, after_marshal,
  after_seek, after_open, append,
}

-- The documented behaviour of a file that is written only here, over the bytes that it holds.
pub record FileLaws {F : Type 0} (ops : FileOps F) (content : F → Bytes) : Type 0 where
  pub seek_end_content : (f : F) → content (ops.seek_end f).0 ≡ content f
  pub seek_end_position : (f : F) (p : ℕ) → (ops.seek_end f).1 ≡ some p → p ≡ length (content f)
  -- after a seek to the end a write adds the first of its bytes, as many as it says
  pub write_at_end :
      (f : F) (p : ℕ) (line : Bytes)
      → (ops.seek_end f).1 ≡ some p
      → content (ops.write line (ops.seek_end f).0).0
        ≡ content f ++ take (ops.write line (ops.seek_end f).0).1 line
  -- cutting a file off where it is no longer
  pub truncate_content :
      (n : ℕ) (f : F)
      → n ≤ length (content f)
      → (ops.truncate n f).1 ≡ true
      → content (ops.truncate n f).0 ≡ take n (content f)
  pub seek_start_content : (n : ℕ) (f : F) → content (ops.seek_start n f).0 ≡ content f

take-length {ℓ} : {A : Type ℓ} (xs : List A) → take (length xs) xs ≡ xs
take-length [] = refl
take-length (x ∷ xs) = ap (λ t. x ∷ t) (take-length xs)

module _ {F : Type 0} (ops : FileOps F) {content : F → Bytes} (laws : FileLaws ops content) where
  -- A rollback that succeeds has cut the file.
  rollback_restores :
      (n : ℕ) (f : F)
      → n ≤ length (content f)
      → (rollback ops n f).1 ≡ true
      → content (rollback ops n f).0 ≡ take n (content f)
  unfolding rollback
  rollback_restores n f within h = elim (Bool-cases (ops.truncate n f).1) [
    | inl cut ↦ ground (
      arith,
      laws.truncate_content n f within cut,
      laws.seek_start_content n (ops.truncate n f).0,
    )
    | inr bad ↦ ground arith
  ]

-- The bytes that a store's file holds; before the first open they are `base`.
abbrev pub disk : {F : Type 0} → (F → Bytes) → Bytes → Option F → Bytes
disk content base none = base
disk content base (some f) = content f

abbrev terminated : Option Bytes → Bytes
terminated none = []
terminated (some line) = line ++ newline ∷ []

-- The line that a record is written as.
abbrev pub line_of : {J : Type 0} → Codec J → Record J → Bytes
line_of codec r = terminated (codec.marshal r)

module _ {F J : Type 0} (ops : FileOps F) (codec : Codec J) (content : F → Bytes)
    (laws : FileLaws ops content) (base : Bytes) where
  -- A store's file holds the bytes that it held and the line of the record that was appended; if no
  -- record was, the store is sealed or the file holds what it held.
  abbrev pub Outcome : Store F → Store F → AppendResult J → Type 0
  Outcome s s' (appended r) =
      (disk content base s'.file ≡ disk content base s.file ++ line_of codec r)
      × (s'.sequence ≡ r.sequence)
      × (r.sequence ≡ (s.sequence + 1) % u64_mod)
      × (s'.sealed ≡ s.sealed)
  Outcome s s' (failed e) =
      (s'.sequence ≡ s.sequence)
      × ((s'.sealed ≡ true) ⊎ (disk content base s'.file ≡ disk content base s.file))

  after_rollback-Outcome :
      (s : Store F) (f : F) (fine : Bool)
      → (fine ≡ true → content f ≡ disk content base s.file)
      → Outcome s (after_rollback ops codec s (f, fine)).0 (after_rollback ops codec s (f, fine)).1
  unfolding after_rollback
  after_rollback-Outcome s f true h = (refl, inr (h refl))
  after_rollback-Outcome s f false h = (refl, inl refl)

  module _ (s : Store F) (f : F) (held : content f ≡ disk content base s.file) where
    write_kept :
        (p : ℕ) (line : Bytes)
        → (ops.seek_end f).1 ≡ some p
        → (rollback ops p (ops.write line (ops.seek_end f).0).0).1 ≡ true
        → content (rollback ops p (ops.write line (ops.seek_end f).0).0).0 ≡ content f
    write_kept p line at fine =
        let within : p ≤ length (content (ops.write line (ops.seek_end f).0).0) = omega (
          arith,
          laws.seek_end_position f p at,
          ap length (laws.write_at_end f p line at),
          length-append (content f) (take (ops.write line (ops.seek_end f).0).1 line),
        ) in
        rollback_restores ops laws p (ops.write line (ops.seek_end f).0).0 within fine
        ∙ ap (take p) (laws.write_at_end f p line at)
        ∙ ap (λ n. take n (content f ++ take (ops.write line (ops.seek_end f).0).1 line))
            (laws.seek_end_position f p at)
        ∙ take-append (content f) (take (ops.write line (ops.seek_end f).0).1 line)

    after_write-Outcome :
        (p : ℕ) (r : Record J) (line : Bytes)
        → (ops.seek_end f).1 ≡ some p
        → line_of codec r ≡ line
        → r.sequence ≡ (s.sequence + 1) % u64_mod
        → let o = after_write ops codec s p r line (ops.write line (ops.seek_end f).0) in
          Outcome s o.0 o.1
    unfolding after_write
    after_write-Outcome p r line at l n =
        let w : F × ℕ × Bool = ops.write line (ops.seek_end f).0 in
        let all_of : w.1 ≡ length line → content w.0 ≡ disk content base s.file ++ line_of codec r =
          λ e.
            laws.write_at_end f p line at
            ∙ ap (λ m. content f ++ take m line) e
            ∙ ap (λ bytes. content f ++ bytes) (take-length line)
            ∙ ap (λ bytes. bytes ++ line) held
            ∙ ap (λ bytes. disk content base s.file ++ bytes) (sym l) in
        elim (Bool-cases (w.2 && w.1 == length line)) [
          | inl whole ↦ rw whole (all_of (ground arith), refl, n, refl)
          | inr part ↦ rw part (
              after_rollback-Outcome s (rollback ops p w.0).0 (rollback ops p w.0).1
                (λ fine. write_kept p line at fine ∙ held))
        ]

    after_marshal-Outcome :
        (p : ℕ) (r : Record J)
        → (ops.seek_end f).1 ≡ some p
        → r.sequence ≡ (s.sequence + 1) % u64_mod
        → let o = after_marshal ops codec s (ops.seek_end f).0 p r (codec.marshal r) in
          Outcome s o.0 o.1
    unfolding after_marshal
    after_marshal-Outcome p r at n = elim (Option-cases (codec.marshal r)) [
      | inl nothing ↦ rw nothing (refl, inr (laws.seek_end_content f ∙ held))
      | inr (l, e) ↦ rw e (after_write-Outcome p r (l ++ newline ∷ []) at (ap terminated e) n)
    ]

    after_seek-Outcome :
        (a : Attempt F) (payload : J)
        → let o = after_seek ops codec s a payload (ops.seek_end f) in Outcome s o.0 o.1
    unfolding after_seek
    after_seek-Outcome a payload = elim (Option-cases (ops.seek_end f).1) [
      | inl nowhere ↦ rw nowhere (refl, inr (laws.seek_end_content f ∙ held))
      | inr (p, at) ↦ rw at (after_marshal-Outcome p (new_record ops codec s a payload) at refl)
    ]

  -- A file that an open hands out holds `base`.
  abbrev pub OpensAt : Opened F → Type 0
  OpensAt (handle f) = content f ≡ base
  OpensAt (open_error none) = Unit {0}
  OpensAt (open_error (some f)) = content f ≡ base

  after_open-Outcome :
      (s : Store F) (a : Attempt F) (payload : J) (file : Option F) (opened : Opened F)
      → file ≡ s.file
      → OpensAt opened
      → let o = after_open ops codec s a payload file opened in Outcome s o.0 o.1
  unfolding after_open
  after_open-Outcome s a payload (some f) opened e at =
      after_seek-Outcome s f (ap (disk content base) e) a payload
  after_open-Outcome s a payload none (handle f) e at =
      after_seek-Outcome s f (at ∙ ap (disk content base) e) a payload
  after_open-Outcome s a payload none (open_error none) e at =
      (refl, inr (ap (disk content base) e))
  after_open-Outcome s a payload none (open_error (some f)) e at =
      (refl, inr (at ∙ ap (disk content base) e))

  -- If an open hands out a file with the bytes `base`, every Append either adds exactly the line
  -- of the record that it returns, under the next sequence number, or returns an error, keeps the
  -- sequence number, and leaves the store sealed or the bytes of the file as they were.
  pub append-Outcome :
      (s : Store F) (a : Attempt F)
      → OpensAt a.opened
      → Outcome s (append ops codec s a).0 (append ops codec s a).1
  unfolding append
  append-Outcome s a at = elim (Option-cases (decode_json codec a.raw)) [
    | inl bad ↦ rw bad (refl, inr refl)
    | inr (payload, good) ↦ rw good (elim (Bool-cases (s.sealed || s.closed)) [
      | inl shut ↦ rw shut (refl, inr refl)
      | inr free ↦ rw free (after_open-Outcome s a payload s.file a.opened refl at)
    ])
  ]
