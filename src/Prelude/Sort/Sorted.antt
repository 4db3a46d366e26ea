-- ===== src/Prelude/Sort/Sorted.antt =====
-- Sorting permutes, and gives permuted lists of strings the same order.
use Prim.Native.String.{String}
use mathlib.Core.Path.{◌≡◌, refl, sym, ap, ◌∙◌, subst}
use mathlib.Core.Logic.{◌↔◌, inl, inr}
use mathlib.Core.Bool.{Bool}
use mathlib.Core.List.{List, [], ◌∷◌, Permᴰ}
use mathlib.Core.List.Permᴰ
use native.Mathlib.Omega.{arith}
use dota2_ob.Prelude.Tests.{Bool-cases}
use dota2_ob.Prelude.Sort.{insert_by, sort_by, string_lt, sort_strings}
use dota2_ob.Prelude.Sort.Order.{string_lt_asym, string_lt_anti, string_lt_between}

insert_by-Perm {ℓ} :
    {A : Type ℓ} (less : A → A → Bool) (a : A) (bs : List A) → Permᴰ (insert_by less a bs) (a ∷ bs)
unfolding insert_by
insert_by-Perm less a [] = Permᴰ.refl (a ∷ [])
insert_by-Perm less a (b ∷ bs) = elim (Bool-cases (less b a)) [
  | inl before ↦
      rw before (Permᴰ.trans (Permᴰ.cons refl (insert_by-Perm less a bs)) (Permᴰ.swap refl refl))
  | inr after ↦ rw after (Permᴰ.refl (a ∷ b ∷ bs))
]

pub sort_by-Perm {ℓ} : {A : Type ℓ} (less : A → A → Bool) (xs : List A) → Permᴰ (sort_by less xs) xs
unfolding sort_by
sort_by-Perm less [] = Permᴰ.nil
sort_by-Perm less (a ∷ bs) =
    Permᴰ.trans (insert_by-Perm less a (sort_by less bs)) (Permᴰ.cons refl (sort_by-Perm less bs))

insert_comm :
    (s t : String) (us : List String)
    → insert_by string_lt s (insert_by string_lt t us)
      ≡ insert_by string_lt t (insert_by string_lt s us)
unfolding insert_by
insert_comm s t [] = ground (arith, string_lt_asym s t, string_lt_asym t s, string_lt_anti s t)
insert_comm s t (u ∷ us) = ground (
  arith,
  insert_comm s t us,
  string_lt_asym s t,
  string_lt_asym t s,
  string_lt_anti s t,
  string_lt_between s t u,
  string_lt_between t s u,
)

pub Perm-sort_strings : {xs ys : List String} → Permᴰ xs ys → sort_strings xs ≡ sort_strings ys
unfolding sort_strings sort_by
Perm-sort_strings Permᴰ.nil = refl
Perm-sort_strings (Permᴰ.cons {a = a} {b = b} {l₁ = xs} {l₂ = ys} e d) =
    ap (λ l. insert_by string_lt a l) (Perm-sort_strings d)
    ∙ ap (λ c. insert_by string_lt c (sort_strings ys)) e
Perm-sort_strings (Permᴰ.swap {a = a} {b = b} {a' = c} {b' = d} {l = l} p q) =
    insert_comm a b (sort_strings l)
    ∙ ap (λ x. insert_by string_lt x (insert_by string_lt a (sort_strings l))) q
    ∙ ap (λ x. insert_by string_lt c (insert_by string_lt x (sort_strings l))) p
Perm-sort_strings (Permᴰ.trans d e) = Perm-sort_strings d ∙ Perm-sort_strings e

-- Two lists of strings have the same order exactly if they are permutations of each other.
pub sort_strings-Perm : (xs ys : List String) → (sort_strings xs ≡ sort_strings ys) ↔ Permᴰ xs ys
unfolding sort_strings
sort_strings-Perm xs ys = (
  λ h.
      Permᴰ.trans (Permᴰ.symm (sort_by-Perm string_lt xs))
        (subst (λ l. Permᴰ l ys) (sym h) (sort_by-Perm string_lt ys)),
  λ d. Perm-sort_strings d,
)
