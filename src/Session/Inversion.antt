-- ===== src/Session/Inversion.antt =====
-- What a successful Append says of its record.
use dota2_ob.Prelude.{
  ℕ, ◌≡◌, refl, ap, ◌∙◌, inl, inr, Bool-cases, Bool, true, false, ◌||◌, Option, none, some, [], ◌∷◌,
  ◌++◌, arith,
}
use dota2_ob.Session.{
  Bytes, newline, FileOps, Codec, Record, Err, append_failed, store_sealed, appended, failed, Store,
  Attempt, Opened, handle, open_error, decode_json, rollback, new_record, after_rollback,
  after_write, after_marshal, after_seek, after_open, after_decode, append,
}

module _ {F J : Type 0} (ops : FileOps F) (codec : Codec J) where
  after_rollback_fails :
      (s : Store F) (f : F) (fine : Bool)
      → (e : Err) × ((after_rollback ops codec s (f, fine)).1 ≡ failed e)
  unfolding after_rollback
  after_rollback_fails s f true = (append_failed, refl)
  after_rollback_fails s f false = (store_sealed, refl)

  after_write_inv :
      (s : Store F) (p : ℕ) (r : Record J) (line : Bytes) (f : F) (n : ℕ) (fine : Bool)
      (r' : Record J)
      → (after_write ops codec s p r line (f, n, fine)).1 ≡ appended r'
      → r' ≡ r
  unfolding after_write
  after_write_inv s p r line f n fine r' h =
      ground (arith, after_rollback_fails s (rollback ops p f).0 (rollback ops p f).1)

  after_marshal_inv :
      (s : Store F) (f : F) (p : ℕ) (r : Record J) (m : Option Bytes) (r' : Record J)
      → (after_marshal ops codec s f p r m).1 ≡ appended r'
      → (r' ≡ r) × ((line : Bytes) × (m ≡ some line))
  unfolding after_marshal
  after_marshal_inv s f p r none r' h = cc
  after_marshal_inv s f p r (some line) r' h =
      let (g, n, fine) = ops.write (line ++ newline ∷ []) f in
      (after_write_inv s p r (line ++ newline ∷ []) g n fine r' h, (line, refl))

  module _ (s : Store F) (a : Attempt F) (r : Record J) where
    -- `r` is the new record of the attempt, and it was marshalled.
    abbrev pub IsNew : J → Type 0
    IsNew payload =
        (r ≡ new_record ops codec s a payload) × ((line : Bytes) × (codec.marshal r ≡ some line))

    after_seek_inv :
        (payload : J) (f : F) (at : Option ℕ)
        → (after_seek ops codec s a payload (f, at)).1 ≡ appended r
        → IsNew payload
    unfolding after_seek
    after_seek_inv payload f none h = cc
    after_seek_inv payload f (some p) h =
        let r0 : Record J = new_record ops codec s a payload in
        let (same, (line, e)) = after_marshal_inv s f p r0 (codec.marshal r0) r h in
        (same, (line, ap codec.marshal same ∙ e))

    after_open_inv :
        (payload : J) (file : Option F) (opened : Opened F)
        → (after_open ops codec s a payload file opened).1 ≡ appended r
        → IsNew payload
    unfolding after_open
    after_open_inv payload (some f) opened h =
        after_seek_inv payload (ops.seek_end f).0 (ops.seek_end f).1 h
    after_open_inv payload none (handle f) h =
        after_seek_inv payload (ops.seek_end f).0 (ops.seek_end f).1 h
    after_open_inv payload none (open_error f) h = cc

    after_decode_inv :
        (decoded : Option J)
        → (after_decode ops codec s a decoded).1 ≡ appended r
        → (payload : J) × (decoded ≡ some payload) × IsNew payload
    unfolding after_decode
    after_decode_inv none h = cc
    after_decode_inv (some payload) h = elim (Bool-cases (s.sealed || s.closed)) [
      | inl shut ↦ cc (rw shut at h)
      | inr free ↦ (payload, refl, after_open_inv payload s.file a.opened (rw free at h))
    ]

    -- A record that Append returns is the attempt's, under the next sequence number.
    pub appended_inv :
        (append ops codec s a).1 ≡ appended r
        → (payload : J) × (decode_json codec a.raw ≡ some payload) × IsNew payload
    unfolding append
    appended_inv h = after_decode_inv (decode_json codec a.raw) h

  pub session_id-append :
      (s : Store F) (a : Attempt F) → (append ops codec s a).0.session_id ≡ s.session_id
  unfolding append
  session_id-append s a = ground arith
