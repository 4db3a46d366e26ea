-- ===== src/Session/EndToEnd.antt =====
-- From Append to recovery: a restart counts exactly the records that were acknowledged.
use mathlib.Core.Path.{subst}
use dota2_ob.Prelude.{
  ℕ, ◌+◌, ◌%◌, ◌≡◌, refl, sym, ap, ◌∙◌, String, true, false, Option, none, some, List, [], ◌∷◌,
  ◌++◌, map, append_assoc, All, length, is_empty, ◌==◌, ==_iff, codes, eq_iff, str_eq,
}
use dota2_ob.Prelude.Int.{pos, eqb_ℤ}
use dota2_ob.Prelude.Decimal.{format_uint, format_digits}
use dota2_ob.Prelude.Time.{u64_mod}
use dota2_ob.Session.{
  Bytes, newline, FileOps, Header, Codec, Record, AppendResult, appended, failed, Store, Attempt,
  decode_json, append,
}
use dota2_ob.Session.Inversion.{appended_inv, session_id-append}
use dota2_ob.Session.Journal.{FileLaws, disk, Outcome, OpensAt, append-Outcome}
use dota2_ob.Session.Run.{appends, keep, lines_of, journal}
use dota2_ob.Session.Lines.{IsLine, unlines}
use dota2_ob.Session.Recovery.{
  recover_raw_file, recovered, read, validate_persisted_record, validate_semantic_raw, zero_time,
  bytes_eq, is_two,
}
use dota2_ob.Session.Restart.{ValidFrom, advance, cut_at, recover-unlines}

-- The documented behaviour of encoding/json on the records of the journal: the fields are read back
-- as they were written, the schema version as its decimal digits, and a payload and the raw bytes it
-- was decoded from as JSON of the same value.
pub record CodecLaws {J : Type 0} (codec : Codec J) : Type 0 where
  -- json.Marshal writes no newline, and something
  pub one_line :
      (r : Record J) (line : Bytes)
      → codec.marshal r ≡ some line
      → IsLine line × (is_empty line ≡ false)
  -- json.Unmarshal gives the fields back
  pub header : Record J → Header
  pub unmarshal :
      (r : Record J) (line : Bytes)
      → codec.marshal r ≡ some line
      → codec.unmarshal_header line ≡ some (header r)
  pub version : (r : Record J) → (header r).schema_version ≡ codes (format_uint r.schema_version)
  pub two : codec.unmarshal_int (codes "2") ≡ some (pos 2)
  pub session : (r : Record J) → (header r).session_id ≡ r.session_id
  pub sequence : (r : Record J) → (header r).sequence ≡ r.sequence
  pub source : (r : Record J) → (header r).source ≡ r.source
  pub received : (r : Record J) → (header r).received_at ≡ r.received_at
  pub some_payload :
      (r : Record J)
      → decode_json codec r.raw ≡ some r.payload
      → is_empty (header r).payload ≡ false
  pub some_raw :
      (r : Record J) → decode_json codec r.raw ≡ some r.payload → is_empty (header r).raw ≡ false
  pub payload :
      (r : Record J)
      → decode_json codec r.raw ≡ some r.payload
      → decode_json codec (header r).payload ≡ some r.payload
  pub raw :
      (r : Record J)
      → decode_json codec r.raw ≡ some r.payload
      → decode_json codec (header r).raw ≡ some r.payload
  -- reflect.DeepEqual of a decoded value with itself, which holds no NaN
  pub equal : (raw : Bytes) (p : J) → decode_json codec raw ≡ some p → codec.deep_equal p p ≡ true

module _ {J : Type 0} (codec : Codec J) (laws : CodecLaws codec) where
  -- The line of an acknowledged record passes the validation of recovery.
  valid_line :
      (r : Record J) (line : Bytes) (id : String) (n : ℕ)
      → codec.marshal r ≡ some line
      → decode_json codec r.raw ≡ some r.payload
      → r.schema_version ≡ 2
      → r.session_id ≡ id
      → r.source ≡ "gsi"
      → r.sequence ≡ n
      → eqb_ℤ r.received_at zero_time ≡ false
      → validate_persisted_record codec line id n ≡ true
  unfolding validate_persisted_record format_uint format_digits
  valid_line r line id n m good second session source sequence later =
      let h : Header = laws.header r in
      let digits : h.schema_version ≡ codes "2" =
        laws.version r ∙ ap (λ k. codes (format_uint k)) second in
      let present : is_empty h.schema_version ≡ false = ap is_empty digits in
      let not_null : bytes_eq h.schema_version (codes "null") ≡ false =
        ap (λ b. bytes_eq b (codes "null")) digits in
      let two : is_two codec (codec.unmarshal_int h.schema_version) ≡ true =
        ap (λ b. is_two codec (codec.unmarshal_int b)) digits ∙ ap (is_two codec) laws.two in
      let same_session : str_eq h.session_id id ≡ true =
        (eq_iff h.session_id id).1 (laws.session r ∙ session) in
      let same_sequence : (h.sequence == n) ≡ true =
        (==_iff h.sequence n).1 (laws.sequence r ∙ sequence) in
      let same_source : str_eq h.source "gsi" ≡ true =
        (eq_iff h.source "gsi").1 (laws.source r ∙ source) in
      let not_zero : eqb_ℤ h.received_at zero_time ≡ false =
        ap (λ t. eqb_ℤ t zero_time) (laws.received r) ∙ later in
      let same_value : validate_semantic_raw codec h.payload h.raw ≡ true =
        rw (laws.payload r good, laws.raw r good) (laws.equal r.raw r.payload good) in
      rw (laws.unmarshal r line m) (
        rw (present, not_null)
          (rw two (
            rw
              (
                same_session,
                same_sequence,
                same_source,
                not_zero,
                laws.some_payload r good,
                laws.some_raw r good,
              )
              same_value)))

  -- The marshalled form of a record.
  body : Record J → Bytes
  body r = elim (codec.marshal r) [ none ↦ [] | some line ↦ line ]

  -- From a store at `id` and `n`, records that end at `m` are what recovery accepts.
  record Recoverable (id : String) (n m : ℕ) (records : List (Record J)) : Type 0 where
    valid : ValidFrom codec id n (map body records)
    lines : lines_of codec records ≡ unlines (map body records)
    end : m ≡ advance codec id n (map body records)

  Recoverable-cons :
      (r : Record J) (line : Bytes) (id : String) (n m : ℕ) (records : List (Record J))
      → codec.marshal r ≡ some line
      → decode_json codec r.raw ≡ some r.payload
      → r.schema_version ≡ 2
      → r.session_id ≡ id
      → r.source ≡ "gsi"
      → r.sequence ≡ (n + 1) % u64_mod
      → eqb_ℤ r.received_at zero_time ≡ false
      → Recoverable id r.sequence m records
      → Recoverable id n m (r ∷ records)
  unfolding body lines_of unlines
  Recoverable-cons r line id n m records e good second session source sequence later rest =
      let same : body r ≡ line = ap (λ (o : Option Bytes). elim o [ none ↦ [] | some l ↦ l ]) e in
      record {
        valid = (
          ap is_empty same ∙ (laws.one_line r line e).1,
          subst IsLine (sym same) (laws.one_line r line e).0,
          ap (λ b. validate_persisted_record codec b id ((n + 1) % u64_mod)) same
              ∙ valid_line r line id ((n + 1) % u64_mod) e good second session source sequence
                  later,
          subst (λ k. ValidFrom codec id k (map body records)) sequence rest.valid,
        );
        lines =
            rw (e, rest.lines)
              (append_assoc line (newline ∷ []) (unlines (map body records))
                ∙ ap (λ b. b ++ (newline ∷ unlines (map body records))) (sym same));
        end = rest.end ∙ ap (λ k. advance codec id k (map body records)) sequence;
      }

module _ {F J : Type 0} (ops : FileOps F) (codec : Codec J) (content : F → Bytes)
    (files : FileLaws ops content) (laws : CodecLaws codec) (base : Bytes) where
  -- The clock of an attempt does not read the zero time.
  abbrev pub IsTimed : Attempt F → Type 0
  IsTimed a = eqb_ℤ a.now zero_time ≡ false

  Recoverable-step :
      (s : Store F) (a : Attempt F) (s' : Store F) (result : AppendResult J) (m : ℕ)
      (records : List (Record J))
      → append ops codec s a ≡ (s', result)
      → Outcome ops codec content files base s s' result
      → IsTimed a
      → Recoverable codec laws s.session_id s'.sequence m records
      → Recoverable codec laws s.session_id s.sequence m (keep ops codec result records)
  Recoverable-step s a s' (failed e) m records eq o timed rest =
      subst (λ n. Recoverable codec laws s.session_id n m records) o.0 rest
  Recoverable-step s a s' (appended r) m records eq o timed rest =
      let (payload, good, (new, (line, marshalled))) =
        appended_inv ops codec s a r (ap (λ o. o.1) eq) in
      Recoverable-cons codec laws r line s.session_id s.sequence m records marshalled (rw new good)
        (ap (λ (q : Record J). q.schema_version) new) (ap (λ (q : Record J). q.session_id) new)
        (ap (λ (q : Record J). q.source) new) o.2
        (ap (λ (q : Record J). eqb_ℤ q.received_at zero_time) new ∙ timed)
        (subst (λ n. Recoverable codec laws s.session_id n m records) o.1 rest)

  recoverable :
      (s : Store F) (attempts : List (Attempt F))
      → All (λ a. OpensAt ops codec content files base a.opened) attempts
      → All IsTimed attempts
      → Recoverable codec laws s.session_id s.sequence
          (appends ops codec s attempts).0.sequence
          (appends ops codec s attempts).1
  unfolding appends lines_of unlines
  recoverable s [] opens timed = record { valid = tt; lines = refl; end = refl }
  recoverable s (a ∷ attempts) opens timed =
      let s' : Store F = (append ops codec s a).0 in
      Recoverable-step s a s' (append ops codec s a).1 (appends ops codec s' attempts).0.sequence
        (appends ops codec s' attempts).1 refl
        (append-Outcome ops codec content files base s a opens.0) timed.0
        (subst
          (λ id.
            Recoverable codec laws id s'.sequence (appends ops codec s' attempts).0.sequence
              (appends ops codec s' attempts).1)
          (session_id-append ops codec s a) (recoverable s' attempts opens.1 timed.1))

-- The journal of a new session, cut short by a crash at any byte of a further line, is recovered
-- with the sequence number of the store: every record that an Append returned is kept and counted,
-- and the torn rest, which has no newline, is cut off. The store starts unopened with sequence 0,
-- an open hands out an empty file, no clock reading is the zero time, and the store is not sealed;
-- the file and encoding/json behave as FileLaws and CodecLaws say.
pub recover-appends :
    {F J : Type 0} (ops : FileOps F) (codec : Codec J) (content : F → Bytes)
    (files : FileLaws ops content) (laws : CodecLaws codec) (s : Store F)
    (attempts : List (Attempt F)) (tail : Bytes)
    → s.file ≡ none
    → s.sequence ≡ 0
    → All (λ a. OpensAt ops codec content files [] a.opened) attempts
    → All (IsTimed ops codec content files laws []) attempts
    → (appends ops codec s attempts).0.sealed ≡ false
    → IsLine tail
    → let t = (appends ops codec s attempts).0 in
      recover_raw_file codec s.session_id (read (disk content [] t.file ++ tail)) true
      ≡ recovered t.sequence (cut_at codec s.session_id (length (disk content [] t.file)) tail)
recover-appends {F} {J} ops codec content files laws s attempts tail unopened zeroth opens timed
      unsealed torn =
    let t : Store F = (appends ops codec s attempts).0 in
    let records : List (Record J) = (appends ops codec s attempts).1 in
    let ends : Recoverable codec laws s.session_id s.sequence t.sequence records =
      recoverable ops codec content files laws [] s attempts opens timed in
    let held : disk content [] t.file ≡ unlines (map (body codec laws) records) =
      (journal ops codec content files [] s attempts opens unsealed).0
      ∙ ap (λ f. disk content [] f ++ lines_of codec records) unopened
      ∙ ends.lines in
    let id : String = s.session_id in
    let bodies : List Bytes = map (body codec laws) records in
    let valid : ValidFrom codec id 0 bodies =
      subst (λ n. ValidFrom codec id n bodies) zeroth ends.valid in
    let last : t.sequence ≡ advance codec id 0 bodies =
      ends.end ∙ ap (λ n. advance codec id n bodies) zeroth in
    ap (λ b. recover_raw_file codec id (read (b ++ tail)) true) held
    ∙ recover-unlines codec id bodies tail valid torn
    ∙ ap (λ n. recovered n (cut_at codec id (length (unlines bodies)) tail)) (sym last)
    ∙ ap (λ b. recovered t.sequence (cut_at codec id (length b) tail)) (sym held)
