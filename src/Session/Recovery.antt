-- ===== src/Session/Recovery.antt =====
-- internal/session/store.go, recoverRawFile: what a restart makes of the journal's bytes.
use dota2_ob.Prelude.{
  ℕ, suc, ◌+◌, ◌%◌, String, Bool, true, false, not, ◌&&◌, ◌||◌, Option, none, some, List, [], ◌∷◌,
  length, take, codes, is_empty, str_eq, ◌==◌, if◌then◌else◌,
}
use dota2_ob.Prelude.Int.{ℤ, pos, negsuc, eqb_ℤ}
use dota2_ob.Prelude.Time.{Time, u64_mod}
use dota2_ob.Session.{Bytes, newline, Header, Codec, decode_json}

-- bytes.LastIndexByte, with `none` for -1
unfoldable pub last_index : ℕ → Bytes → Option ℕ
last_index b [] = none
last_index b (x ∷ xs) = elim (last_index b xs) [
  | some i ↦ some (suc i)
  | none ↦ if x == b then some 0 else none
]

abbrev pub cons_head : ℕ → List Bytes → List Bytes
cons_head x [] = (x ∷ []) ∷ []
cons_head x (piece ∷ pieces) = (x ∷ piece) ∷ pieces

-- bytes.Split by one byte
unfoldable pub split : ℕ → Bytes → List Bytes
split b [] = [] ∷ []
split b (x ∷ xs) = let rest = split b xs in if x == b then [] ∷ rest else cons_head x rest

unfoldable pub last_byte : Bytes → Option ℕ
last_byte [] = none
last_byte (x ∷ []) = some x
last_byte (x ∷ y ∷ xs) = last_byte (y ∷ xs)

abbrev pub after_last : Option ℕ → ℕ
after_last none = 0
after_last (some last) = last + 1

abbrev pub committed_of : Bytes → Option ℕ → ℕ
committed_of bytes none = length bytes
committed_of bytes (some last) =
    if not (last == newline) then after_last (last_index newline bytes) else length bytes

-- How many of the bytes end with a whole line.
unfoldable pub committed : Bytes → ℕ
unfolding last_byte last_index
committed bytes = committed_of bytes (last_byte bytes)

unfoldable pub bytes_eq : Bytes → Bytes → Bool
bytes_eq [] [] = true
bytes_eq (x ∷ xs) (y ∷ ys) = x == y && bytes_eq xs ys
bytes_eq _ _ = false

-- time.Time{}: the first instant of the year 1.
abbrev pub zero_time : Time
zero_time = negsuc 62135596799999999999

module _ {J : Type 0} (codec : Codec J) where
  abbrev equal_values : Option J → Option J → Bool
  equal_values (some payload) (some source) = codec.deep_equal payload source
  equal_values _ _ = false

  -- validateSemanticRaw: no error
  unfoldable pub validate_semantic_raw : Bytes → Bytes → Bool
  validate_semantic_raw payload raw =
      equal_values (decode_json codec payload) (decode_json codec raw)

  abbrev pub is_two : Option ℤ → Bool
  is_two none = false
  is_two (some version) = eqb_ℤ version (pos 2)

  abbrev pub validate_header : String → ℕ → Option Header → Bool
  validate_header id sequence none = false
  validate_header id sequence (some h) =
      if is_empty h.schema_version
      then (if eqb_ℤ h.received_at zero_time || is_empty h.payload || is_empty h.raw
          then false
          else validate_semantic_raw h.payload h.raw)
      else if bytes_eq h.schema_version (codes "null")
          || not (is_two (codec.unmarshal_int h.schema_version))
          || not (str_eq h.session_id id)
          || not (h.sequence == sequence)
          || not (str_eq h.source "gsi")
          || eqb_ℤ h.received_at zero_time
          || is_empty h.payload
          || is_empty h.raw
      then false
      else validate_semantic_raw h.payload h.raw

  -- validatePersistedRecord: no error
  unfoldable pub validate_persisted_record : Bytes → String → ℕ → Bool
  unfolding validate_semantic_raw bytes_eq
  validate_persisted_record line id sequence =
      validate_header id sequence (codec.unmarshal_header line)

pub data Recovered : Type 0 where
  -- the sequence number to go on from, and the length that the file was cut to, if it was cut
  recovered : ℕ → Option ℕ → Recovered
  invalid_record : ℕ → Recovered
  read_failed : Recovered
  truncate_failed : Recovered

-- os.ReadFile
pub data ReadResult : Type 0 where
  not_exist : ReadResult
  unreadable : ReadResult
  read : Bytes → ReadResult

pub data Checked : Type 0 where
  checked : ℕ → Checked
  invalid : ℕ → Checked

-- Cut the file to its whole lines.
abbrev pub cut : Bytes → Bool → Checked → Recovered
cut bytes truncates (invalid n) = invalid_record n
cut bytes truncates (checked sequence) =
    if committed bytes == length bytes
    then recovered sequence none
    else if truncates
    then recovered sequence (some (committed bytes))
    else truncate_failed

module _ {J : Type 0} (codec : Codec J) (id : String) where
  -- The loop over the lines; an empty line is only allowed at the end.
  unfoldable pub check_lines : ℕ → List Bytes → Checked
  check_lines sequence [] = checked sequence
  check_lines sequence (line ∷ lines) =
      let next = (sequence + 1) % u64_mod in
      let rest = check_lines next lines in
      if is_empty line
      then (if is_empty lines then checked sequence else invalid next)
      else if validate_persisted_record codec line id next
      then rest
      else invalid next

  -- `truncates` says whether os.Truncate succeeds.
  unfoldable pub recover_raw_file : ReadResult → Bool → Recovered
  unfolding check_lines committed split
  recover_raw_file not_exist truncates = recovered 0 none
  recover_raw_file unreadable truncates = read_failed
  recover_raw_file (read bytes) truncates =
      cut bytes truncates (check_lines 0 (split newline (take (committed bytes) bytes)))
