-- ===== src/Prelude/Sort.antt =====
-- sort.Strings and sort.Slice of Go: insertion of each item by the test `less`, in the order given.
-- Where two items are equal for `less`, Go leaves their order open, and here they keep theirs.
pub mod Order
pub mod Sorted
use Prim.Native.Nat.{ℕ}
use Prim.Native.String.{String}
use mathlib.Core.List.{List, [], ◌∷◌}
use mathlib.Core.Bool.{Bool, true, false}
use dota2_ob.Prelude.Tests.{ltb, if◌then◌else◌}
use dota2_ob.Prelude.Lists.{codes}

module _ {ℓ} {A : Type ℓ} where
  unfoldable pub insert_by : (A → A → Bool) → A → List A → List A
  insert_by less a [] = a ∷ []
  insert_by less a (b ∷ bs) =
      let rest = insert_by less a bs in if less b a then b ∷ rest else a ∷ b ∷ bs

  unfoldable pub sort_by : (A → A → Bool) → List A → List A
  unfolding insert_by
  sort_by less [] = []
  sort_by less (a ∷ bs) = insert_by less a (sort_by less bs)

unfoldable pub lex_lt : List ℕ → List ℕ → Bool
lex_lt xs [] = false
lex_lt [] (y ∷ ys) = true
lex_lt (x ∷ xs) (y ∷ ys) =
    let rest = lex_lt xs ys in if ltb x y then true else if ltb y x then false else rest

-- a < b on strings: by their bytes, which is by their characters
unfoldable pub string_lt : String → String → Bool
unfolding lex_lt
string_lt a b = lex_lt (codes a) (codes b)

-- sort.Strings
unfoldable pub sort_strings : List String → List String
unfolding sort_by string_lt
sort_strings ss = sort_by string_lt ss
