-- ===== src/Prelude/Text.antt =====
-- Functions of Go's package strings. ToLower and ToUpper change the letters of ASCII alone.
use Prim.Native.Nat.{ℕ, ◌-◌}
use Prim.Native.Char.{Char, code}
use Prim.Native.String.{String, char_at, slice, len}
use mathlib.Core.Bool.{Bool, ◌&&◌, ◌||◌}
use mathlib.Core.Option.{Option, none, some}
use mathlib.Core.List.{List, [], ◌∷◌}
use text.Mathlib.Text.{starts_with, find?}
use dota2_ob.Prelude.Tests.{leb, ◌==◌, if◌then◌else◌, is_some}

-- strings.Contains
unfoldable pub contains_text : String → String → Bool
contains_text s part = is_some (find? s part)

-- strings.TrimPrefix
unfoldable pub trim_prefix : String → String → String
trim_prefix s prefix = if starts_with s prefix then slice s (len prefix) (len s) else s

abbrev lower_char : Char → Char
lower_char c =
    if leb 65 (code c) && leb (code c) 90
    then char_at "abcdefghijklmnopqrstuvwxyz" (code c - 65)
    else c

abbrev upper_char : Char → Char
upper_char c =
    if leb 97 (code c) && leb (code c) 122
    then char_at "ABCDEFGHIJKLMNOPQRSTUVWXYZ" (code c - 97)
    else c

-- strings.ToLower
unfoldable pub to_lower : String → String
to_lower String.[] = String.[]
to_lower (String.◌∷◌ c s) = String.◌∷◌ (lower_char c) (to_lower s)

-- strings.ToUpper(p[:1]) + p[1:], and an empty text as it is
unfoldable pub upper_first : String → String
upper_first String.[] = String.[]
upper_first (String.◌∷◌ c s) = String.◌∷◌ (upper_char c) s

abbrev to_first : Char → List String → List String
to_first c [] = String.◌∷◌ c String.[] ∷ []
to_first c (w ∷ ws) = String.◌∷◌ c w ∷ ws

-- strings.Split by the character with the code `sep`
unfoldable pub split_at : ℕ → String → List String
split_at sep String.[] = "" ∷ []
split_at sep (String.◌∷◌ c s) =
    let rest = split_at sep s in if code c == sep then "" ∷ rest else to_first c rest

-- strings.Join(parts, "")
unfoldable pub join : List String → String
join [] = ""
join (p ∷ ps) = Prim.Native.String.◌++◌ p (join ps)

abbrev is_space : Char → Bool
is_space c = (leb 9 (code c) && leb (code c) 13) || (code c == 32)

unfoldable pub trim_start : String → String
trim_start String.[] = String.[]
trim_start (String.◌∷◌ c s) = let rest = trim_start s in if is_space c then rest else String.◌∷◌ c s

abbrev before_spaces : Char → String → String
before_spaces c String.[] = if is_space c then String.[] else String.◌∷◌ c String.[]
before_spaces c (String.◌∷◌ d s) = String.◌∷◌ c (String.◌∷◌ d s)

unfoldable pub trim_end : String → String
trim_end String.[] = String.[]
trim_end (String.◌∷◌ c s) = before_spaces c (trim_end s)

-- strings.TrimSpace, of the spaces of ASCII
unfoldable pub trim_space : String → String
unfolding trim_start trim_end
trim_space s = trim_end (trim_start s)

abbrev behind : Char → Option (String × String) → Option (String × String)
behind c none = none
behind c (some (a, b)) = some (String.◌∷◌ c a, b)

-- The texts before and after the first character with the code `sep`, if there is one
unfoldable pub cut_at : ℕ → String → Option (String × String)
cut_at sep String.[] = none
cut_at sep (String.◌∷◌ c s) =
    let rest = cut_at sep s in if code c == sep then some ("", s) else behind c rest
