-- ===== src/Session.antt =====
-- internal/session/store.go: the append-only journal of raw snapshots.
-- The file, and encoding/json, are not the program's: they are the records `FileOps` and `Codec`,
-- taken as parameters. Bytes are numbers. What the environment decides in one Append (the reading of
-- the clock, the outcome of opening the file) is in `Attempt`. A method under the store's lock is one
-- step from a store to the next.
pub mod Journal
pub mod Run
pub mod Recovery
pub mod Lines
pub mod Restart
pub mod Inversion
pub mod EndToEnd
pub mod Create
pub mod Fresh
pub mod Samples
mod Tests
use dota2_ob.Prelude.{
  ℕ, suc, ◌+◌, ◌%◌, String, Bool, true, false, not, ◌&&◌, ◌||◌, Option, none, some, List, [], ◌∷◌,
  ◌++◌, ◌==◌, if◌then◌else◌, length, take, is_empty, str_eq,
}
use dota2_ob.Prelude.Int.{ℤ}
use dota2_ob.Prelude.Time.{Time, u64_mod}

abbrev pub Bytes : Type 0
Bytes = List ℕ

abbrev pub newline : ℕ
newline = 10

-- RawFile, over the type of open files. The flag beside a result is "no error".
pub record FileOps (F : Type 0) : Type 0 where
  -- Write: the bytes written, and whether there was no error
  pub write : Bytes → F → F × ℕ × Bool
  -- Seek(0, io.SeekEnd) and Seek(offset, io.SeekStart): the new position, or an error
  pub seek_end : F → F × Option ℕ
  pub seek_start : ℕ → F → F × Option ℕ
  pub truncate : ℕ → F → F × Bool
  -- Stat().Size(), or an error
  pub size : F → Option ℕ
  pub close : F → Bool

pub record Record (J : Type 0) : Type 0 where
  pub schema_version : ℕ
  pub session_id : String
  pub sequence : ℕ
  pub received_at : Time
  pub source : String
  pub payload : J
  pub raw : Bytes

-- What json.Decoder.Decode gives: a value and the bytes after it, io.EOF, or another error.
pub data Decoded (J : Type 0) : Type 0 where
  value : J → Bytes → Decoded J
  eof : Decoded J
  malformed : Decoded J

-- The header that validatePersistedRecord unmarshals; a field that is missing is empty.
pub record Header : Type 0 where
  pub schema_version : Bytes
  pub session_id : String
  pub sequence : ℕ
  pub source : String
  pub received_at : Time
  pub payload : Bytes
  pub raw : Bytes

pub record Codec (J : Type 0) : Type 0 where
  pub decode : Bytes → Decoded J
  pub marshal : Record J → Option Bytes
  pub unmarshal_header : Bytes → Option Header
  pub unmarshal_int : Bytes → Option ℤ
  pub deep_equal : J → J → Bool

pub data Err : Type 0 where
  invalid_json append_failed store_sealed marshal_failed : Err

pub data AppendResult (J : Type 0) : Type 0 where
  appended : Record J → AppendResult J
  failed : Err → AppendResult J

-- The part of Store that its methods read and write after NewStore.
pub record Store (F : Type 0) : Type 0 where
  pub session_id : String
  pub file : Option F
  pub sequence : ℕ
  pub sealed : Bool
  pub closed : Bool

-- What openFile returns: a handle, or an error with the value that stands beside it. An opener that
-- returns a nil *os.File beside the error gives a RawFile that is not nil.
pub data Opened (F : Type 0) : Type 0 where
  handle : F → Opened F
  open_error : Option F → Opened F

-- One call of Append, with what openFile would return.
pub record Attempt (F : Type 0) : Type 0 where
  pub raw : Bytes
  pub now : Time
  pub opened : Opened F

module _ {J : Type 0} (codec : Codec J) where
  abbrev second_decode : J → Decoded J → Option J
  second_decode payload eof = some payload
  second_decode payload malformed = none
  second_decode payload (value extra rest) = none

  abbrev first_decode : Decoded J → Option J
  first_decode eof = none
  first_decode malformed = none
  first_decode (value payload rest) = second_decode payload (codec.decode rest)

  -- One value, and nothing but white space after it.
  unfoldable pub decode_json : Bytes → Option J
  decode_json raw = first_decode (codec.decode raw)

module _ {F : Type 0} (ops : FileOps F) where
  abbrev check_size : ℕ → F → Option ℕ → F × Bool
  check_size offset f none = (f, false)
  check_size offset f (some n) = (f, n == offset)

  abbrev check_position : ℕ → F → Option ℕ → F × Bool
  check_position offset f none = (f, false)
  check_position offset f (some position) =
      if position == offset then check_size offset f (ops.size f) else (f, false)

  abbrev check_truncated : ℕ → F → Bool → F × Bool
  check_truncated offset f false = (f, false)
  check_truncated offset f true =
      let (f', position) = ops.seek_start offset f in check_position offset f' position

  -- Cut the file back to `offset`, and check that it took.
  unfoldable pub rollback : ℕ → F → F × Bool
  rollback offset f = let (f', fine) = ops.truncate offset f in check_truncated offset f' fine

module _ {F J : Type 0} (ops : FileOps F) (codec : Codec J) where
  abbrev pub new_record : Store F → Attempt F → J → Record J
  new_record s a payload = record {
    schema_version = 2;
    session_id = s.session_id;
    sequence = (s.sequence + 1) % u64_mod;
    received_at = a.now;
    source = "gsi";
    payload = payload;
    raw = a.raw;
  }

  after_rollback : Store F → F × Bool → Store F × AppendResult J
  after_rollback s (f, true) = (record s { file = some f }, failed append_failed)
  after_rollback s (f, false) = (record s { file = some f; sealed = true }, failed store_sealed)

  after_write : Store F → ℕ → Record J → Bytes → F × ℕ × Bool → Store F × AppendResult J
  unfolding after_rollback
  after_write s prior r line (f, n, fine) =
      if fine && n == length line
      then (record s { file = some f; sequence = r.sequence }, appended r)
      else after_rollback s (rollback ops prior f)

  after_marshal : Store F → F → ℕ → Record J → Option Bytes → Store F × AppendResult J
  unfolding after_write
  after_marshal s f prior r none = (record s { file = some f }, failed marshal_failed)
  after_marshal s f prior r (some line) =
      after_write s prior r (line ++ newline ∷ []) (ops.write (line ++ newline ∷ []) f)

  after_seek : Store F → Attempt F → J → F × Option ℕ → Store F × AppendResult J
  unfolding after_marshal
  after_seek s a payload (f, none) = (record s { file = some f }, failed append_failed)
  after_seek s a payload (f, some prior) =
      after_marshal s f prior (new_record s a payload) (codec.marshal (new_record s a payload))

  -- `s.file, err = s.openFile(…)` stores the handle, with an error too.
  after_open : Store F → Attempt F → J → Option F → Opened F → Store F × AppendResult J
  unfolding after_seek
  after_open s a payload (some f) opened = after_seek s a payload (ops.seek_end f)
  after_open s a payload none (handle f) = after_seek s a payload (ops.seek_end f)
  after_open s a payload none (open_error f) = (record s { file = f }, failed append_failed)

  after_decode : Store F → Attempt F → Option J → Store F × AppendResult J
  unfolding after_open
  after_decode s a none = (s, failed invalid_json)
  after_decode s a (some payload) =
      if s.sealed || s.closed
      then (s, failed store_sealed)
      else after_open s a payload s.file a.opened

  unfoldable pub append : Store F → Attempt F → Store F × AppendResult J
  unfolding after_decode
  append s a = after_decode s a (decode_json codec a.raw)

module _ {F : Type 0} (ops : FileOps F) where
  close_file : Option F → Bool
  close_file none = true
  close_file (some f) = ops.close f

  -- The result is "no error".
  unfoldable pub close : Store F → Store F × Bool
  unfolding close_file
  close s = if s.closed then (s, true) else (record s { closed = true }, close_file s.file)
