-- ===== src/Prelude/Decimal.antt =====
-- strconv.FormatUint, ParseUint and Atoi in base 10.
use Prim.Native.Nat.{ℕ, zero, suc, ◌+◌, ◌-◌, ◌*◌, ◌/◌, ◌%◌, ◌^◌}
use Prim.Native.Char.{Char, code}
use Prim.Native.String.{String, char_at, ◌++◌}
use mathlib.Core.Bool.{Bool, true, false, ◌&&◌}
use mathlib.Core.Option.{Option, none, some}
use dota2_ob.Prelude.Tests.{ltb, leb, ◌==◌, if◌then◌else◌}
use dota2_ob.Prelude.Int.{ℤ, pos, negsuc}

abbrev digit_char : ℕ → Char
digit_char d = char_at "0123456789" d

-- The digits of `n` in front of `s`, at most as many as the fuel.
unfoldable pub format_digits : ℕ → ℕ → String → String
format_digits zero n s = s
format_digits (suc fuel) n s =
    let more = format_digits fuel (n / 10) (String.◌∷◌ (digit_char (n % 10)) s) in
    if ltb n 10 then String.◌∷◌ (digit_char n) s else more

-- A uint64 has at most 20 digits.
unfoldable pub format_uint : ℕ → String
unfolding format_digits
format_uint n = format_digits 20 n ""

abbrev is_digit : ℕ → Bool
is_digit c = leb 48 c && leb c 57

abbrev times_ten : Option ℕ → ℕ → Option ℕ
times_ten none d = none
times_ten (some n) d = some (10 * n + d)

unfoldable pub parse_digits : Option ℕ → String → Option ℕ
parse_digits n String.[] = n
parse_digits n (String.◌∷◌ c s) =
    parse_digits (if is_digit (code c) then times_ten n (code c - 48) else none) s

abbrev below : ℕ → Option ℕ → Option ℕ
below bound none = none
below bound (some n) = if ltb n bound then some n else none

-- ParseUint(s, 10, bits), with `none` for an error
unfoldable pub parse_uint : ℕ → String → Option ℕ
unfolding parse_digits
parse_uint bits String.[] = none
parse_uint bits (String.◌∷◌ c s) = below (2 ^ bits) (parse_digits (some 0) (String.◌∷◌ c s))

-- fmt's %d of an integer
unfoldable pub format_int : ℤ → String
unfolding format_uint
format_int (pos n) = format_uint n
format_int (negsuc n) = "-" ++ format_uint (suc n)

abbrev is_text : String → Bool
is_text String.[] = false
is_text (String.◌∷◌ c s) = true

abbrev positive : Option ℕ → Option ℤ
positive none = none
positive (some n) = some (pos n)

abbrev negative : Option ℕ → Option ℤ
negative none = none
negative (some zero) = some (pos 0)
negative (some (suc n)) = some (negsuc n)

abbrev signed : ℕ → String → String → Option ℤ
signed sign s rest =
    if sign == 45
    then negative (if is_text rest then below (2 ^ 63 + 1) (parse_digits (some 0) rest) else none)
    else if sign == 43
    then positive (parse_uint 63 rest)
    else positive (parse_uint 63 s)

-- strconv.Atoi, with `none` for an error
unfoldable pub atoi : String → Option ℤ
unfolding parse_digits parse_uint
atoi String.[] = none
atoi (String.◌∷◌ c s) = signed (code c) (String.◌∷◌ c s) s
