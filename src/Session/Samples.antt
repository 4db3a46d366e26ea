-- ===== src/Session/Samples.antt =====
-- A file in memory and a plain encoding of records, for the runs of internal/session/store.go.
use mathlib.Core.Bool.{false≢true}
use dota2_ob.Prelude.{
  ℕ, ◌+◌, ◌-◌, ◌≡◌, refl, sym, ap, ◌∙◌, inl, inr, Bool-cases, Bool, true, false, not, ◌&&◌, Option,
  none, some, [], ◌∷◌, ◌++◌, arith, length, take, leb, ◌==◌, codes, str_eq, eq_iff, if◌then◌else◌,
}
use dota2_ob.Prelude.Int.{pos, pos_part, eqb_ℤ, eq_of_parts}
use dota2_ob.Prelude.Decimal.{format_uint}
use dota2_ob.Session.{Bytes, FileOps, Record, Decoded, value, eof, Header, Codec, decode_json}
use dota2_ob.Session.Journal.{FileLaws}
use dota2_ob.Session.Recovery.{bytes_eq}
use dota2_ob.Session.EndToEnd.{CodecLaws}

-- A file in memory with room for some more bytes; a nil one answers nothing but errors.
pub record Disk : Type 0 where
  pub held : Bytes
  pub room : ℕ
  pub is_nil : Bool

abbrev pub written : Bytes → Disk → ℕ
written line d = if leb (length line) d.room then length line else d.room

abbrev pub disk_ops : FileOps Disk
disk_ops = record {
  write = λ line d. (
    record d { held = d.held ++ take (written line d) line; room = d.room - written line d },
    written line d,
    leb (length line) d.room,
  );
  seek_end = λ d. (d, if d.is_nil then none else some (length d.held));
  seek_start = λ n d. (d, some n);
  truncate = λ n d. (record d { held = take n d.held }, true);
  size = λ d. some (length d.held);
  close = λ d. not d.is_nil;
}

pub disk_laws : FileLaws disk_ops (λ d. d.held)
disk_laws = record {
  seek_end_content = λ d. refl;
  seek_end_position = λ d p e. ground arith;
  write_at_end = λ d p line e. refl;
  truncate_content = λ n d within e. refl;
  seek_start_content = λ n d. refl;
}

-- A blank is skipped, and any other byte is a value.
abbrev pub decode : Bytes → Decoded ℕ
decode [] = eof
decode (b ∷ bytes) = let rest = decode bytes in if b == 32 then rest else value (b - 33) bytes

abbrev pub is_byte : ℕ → Bytes → Bool
is_byte n (b ∷ []) = b == n
is_byte n _ = false

-- The records that the encoding covers.
abbrev pub is_plain : Record ℕ → Bool
is_plain r =
    str_eq r.session_id "match"
    && str_eq r.source "gsi"
    && eqb_ℤ r.received_at (pos (pos_part r.received_at))
    && is_byte (r.payload + 33) r.raw

abbrev pub plain_line : Record ℕ → Bytes
plain_line r =
    (r.schema_version + 33)
    ∷ (r.sequence + 33)
    ∷ (pos_part r.received_at + 33)
    ∷ (r.payload + 33)
    ∷ []

abbrev pub marshal : Record ℕ → Option Bytes
marshal r = if is_plain r then some (plain_line r) else none

abbrev pub header_of : Record ℕ → Header
header_of r = record {
  schema_version = codes (format_uint r.schema_version);
  session_id = r.session_id;
  sequence = r.sequence;
  source = r.source;
  received_at = r.received_at;
  payload = (r.payload + 33) ∷ [];
  raw = 32 ∷ r.raw;
}

abbrev pub unmarshal_header : Bytes → Option Header
unmarshal_header (v ∷ n ∷ t ∷ b ∷ []) = some (record {
  schema_version = codes (format_uint (v - 33));
  session_id = "match";
  sequence = n - 33;
  source = "gsi";
  received_at = pos (t - 33);
  payload = b ∷ [];
  raw = 32 ∷ b ∷ [];
})
unmarshal_header _ = none

abbrev pub codec : Codec ℕ
codec = record {
  decode = decode;
  marshal = marshal;
  unmarshal_header = unmarshal_header;
  unmarshal_int = λ b. if bytes_eq b (codes "2") then some (pos 2) else none;
  deep_equal = λ a b. a == b;
}

is_byte_lem : (n : ℕ) (bytes : Bytes) → is_byte n bytes ≡ true → bytes ≡ n ∷ []
is_byte_lem n (b ∷ []) h = ground arith
is_byte_lem n [] h = absurd (false≢true h)
is_byte_lem n (b ∷ c ∷ bytes) h = absurd (false≢true h)

marshal_inv :
    (r : Record ℕ) (line : Bytes)
    → marshal r ≡ some line
    → (is_plain r ≡ true) × (line ≡ plain_line r)
marshal_inv r line e = elim (Bool-cases (is_plain r)) [
  | inl plain ↦ ground arith
  | inr other ↦ ground arith
]

unmarshal_plain :
    (r : Record ℕ) → is_plain r ≡ true → unmarshal_header (plain_line r) ≡ some (header_of r)
unmarshal_plain r h =
    let id : r.session_id ≡ "match" = (eq_iff r.session_id "match").0 (ground arith) in
    let source : r.source ≡ "gsi" = (eq_iff r.source "gsi").0 (ground arith) in
    let raw : r.raw ≡ (r.payload + 33) ∷ [] = is_byte_lem (r.payload + 33) r.raw (ground arith) in
    let time : r.received_at ≡ pos (pos_part r.received_at) =
      eq_of_parts r.received_at (pos (pos_part r.received_at)) (ground arith) in
    let version : r.schema_version + 33 - 33 ≡ r.schema_version = omega arith in
    let number : r.sequence + 33 - 33 ≡ r.sequence = omega arith in
    let clock : pos (pos_part r.received_at + 33 - 33) ≡ r.received_at =
      ap pos (omega arith) ∙ sym time in
    rw (id, source, raw, version, number, clock) refl

pub codec_laws : CodecLaws codec
unfolding bytes_eq decode_json
codec_laws = record {
  one_line = λ r line e. ground (arith, marshal_inv r line e);
  header = header_of;
  unmarshal = λ r line e.
      ap unmarshal_header (marshal_inv r line e).1 ∙ unmarshal_plain r (marshal_inv r line e).0;
  version = λ r. refl;
  two = refl;
  session = λ r. refl;
  sequence = λ r. refl;
  source = λ r. refl;
  received = λ r. refl;
  some_payload = λ r good. refl;
  some_raw = λ r good. refl;
  payload = λ r good. ground arith;
  raw = λ r good. good;
  equal = λ raw p good. ground arith;
}
