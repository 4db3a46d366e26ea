-- ===== src/Prelude/Sort/Order.antt =====
-- The order of strings is total.
use Prim.Native.Nat.{ℕ}
use Prim.Native.String.{String}
use mathlib.Core.Path.{◌≡◌, refl, ap, ◌∙◌}
use mathlib.Core.Bool.{true, false}
use mathlib.Core.List.{List, [], ◌∷◌}
use native.Mathlib.Omega.{arith}
use text.Mathlib.TextEquality.{Char-path}
use dota2_ob.Prelude.Lists.{codes}
use dota2_ob.Prelude.Sort.{lex_lt, string_lt}

lex_asym : (xs ys : List ℕ) → lex_lt xs ys ≡ true → lex_lt ys xs ≡ false
unfolding lex_lt
lex_asym [] [] h = refl
lex_asym [] (y ∷ ys) h = refl
lex_asym (x ∷ xs) [] h = cc
lex_asym (x ∷ xs) (y ∷ ys) h = ground (arith, lex_asym xs ys)

lex_anti : (xs ys : List ℕ) → lex_lt xs ys ≡ false → lex_lt ys xs ≡ false → xs ≡ ys
unfolding lex_lt
lex_anti [] [] h k = refl
lex_anti [] (y ∷ ys) h k = cc
lex_anti (x ∷ xs) [] h k = cc
lex_anti (x ∷ xs) (y ∷ ys) h k = ground (arith, lex_anti xs ys)

-- If z is not before y but is before x, then y is before x.
lex_between : (xs ys zs : List ℕ) → lex_lt zs ys ≡ false → lex_lt zs xs ≡ true → lex_lt ys xs ≡ true
unfolding lex_lt
lex_between [] ys [] h k = cc
lex_between [] ys (z ∷ zs) h k = cc
lex_between (x ∷ xs) [] zs h k = refl
lex_between (x ∷ xs) (y ∷ ys) [] h k = cc
lex_between (x ∷ xs) (y ∷ ys) (z ∷ zs) h k = ground (arith, lex_between xs ys zs)

codes_injective : (s t : String) → codes s ≡ codes t → s ≡ t
codes_injective String.[] String.[] h = refl
codes_injective String.[] (String.◌∷◌ d t) h = cc
codes_injective (String.◌∷◌ c s) String.[] h = cc
codes_injective (String.◌∷◌ c s) (String.◌∷◌ d t) h =
    let tails : codes s ≡ codes t = cc in
    ap (λ x. String.◌∷◌ x s) (Char-path c d cc)
    ∙ ap (λ r. String.◌∷◌ d r) (codes_injective s t tails)

pub string_lt_asym : (s t : String) → string_lt s t ≡ true → string_lt t s ≡ false
unfolding string_lt
string_lt_asym s t = lex_asym (codes s) (codes t)

pub string_lt_anti : (s t : String) → string_lt s t ≡ false → string_lt t s ≡ false → s ≡ t
unfolding string_lt
string_lt_anti s t h k = codes_injective s t (lex_anti (codes s) (codes t) h k)

pub string_lt_between :
    (s t u : String) → string_lt u t ≡ false → string_lt u s ≡ true → string_lt t s ≡ true
unfolding string_lt
string_lt_between s t u = lex_between (codes s) (codes t) (codes u)
