-- ===== src/Review/Refs.antt =====
-- ParseEventRef, CanonicalEventRef and findByRef of internal/replay/review/phase_ops.go. The open end
-- of a reference, -1 in the code, is `none`: a closed end is above a start that is not negative.
use dota2_ob.Prelude.{
  ℕ, suc, String, Bool, ◌&&◌, ◌||◌, Option, none, some, List, [], ◌∷◌, if◌then◌else◌, str_eq,
}
use dota2_ob.Prelude.Int.{ℤ, pos, ltb_ℤ, leb_ℤ, eqb_ℤ}
use dota2_ob.Prelude.Text.{trim_prefix, trim_space, cut_at}
use dota2_ob.Prelude.Decimal.{atoi, format_int}
use dota2_ob.Review.Stream.{PhaseInterval}

infixr 65 ◌<>◌
abbrev ◌<>◌ : String → String → String
s <> t = Prim.Native.String.◌++◌ s t

-- CanonicalEventRef
unfoldable pub canonical_event_ref : PhaseInterval → String
unfolding format_int
canonical_event_ref iv = "interval@" <> format_int iv.start <> "-" <> format_int iv.end_second

abbrev pub with_ref : PhaseInterval → PhaseInterval
with_ref iv = record iv { event_ref = canonical_event_ref iv }

abbrev closed_ref : Option ℤ → Option ℤ → Option (ℤ × Option ℤ)
closed_ref none b = none
closed_ref (some a) none = none
closed_ref (some a) (some b) = if ltb_ℤ a (pos 0) || leb_ℤ b a then none else some (a, some b)

abbrev open_ref : Option ℤ → Option (ℤ × Option ℤ)
open_ref none = none
open_ref (some a) = some (a, none)

abbrev parse_parts : String → Option (String × String) → Option (ℤ × Option ℤ)
parse_parts s none = open_ref (atoi s)
parse_parts s (some (a, b)) = closed_ref (atoi (trim_space a)) (atoi (trim_space b))

-- ParseEventRef
unfoldable pub parse_event_ref : String → Option (ℤ × Option ℤ)
unfolding trim_space trim_prefix cut_at atoi
parse_event_ref ref =
    let s = trim_prefix (trim_space ref) "interval@" in parse_parts s (cut_at 45 s)

abbrev pub fits : ℤ → Option ℤ → PhaseInterval → Bool
fits start none iv = eqb_ℤ iv.start start
fits start (some e) iv = eqb_ℤ iv.start start && eqb_ℤ iv.end_second e

-- The first interval that a test accepts, with its index counted from `i`.
unfoldable pub find_from :
    (PhaseInterval → Bool) → ℕ → List PhaseInterval → Option (ℕ × PhaseInterval)
find_from test i [] = none
find_from test i (iv ∷ ivs) =
    let rest = find_from test (suc i) ivs in if test iv then some (i, iv) else rest

abbrev find_parsed : Option (ℤ × Option ℤ) → List PhaseInterval → Option (ℕ × PhaseInterval)
find_parsed none ivs = none
find_parsed (some (start, e)) ivs = find_from (fits start e) 0 ivs

-- findByRef
unfoldable pub find_by_ref : List PhaseInterval → String → Option (ℕ × PhaseInterval)
unfolding parse_event_ref find_from
find_by_ref ivs ref = if str_eq ref "" then none else find_parsed (parse_event_ref ref) ivs
