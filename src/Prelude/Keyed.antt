-- ===== src/Prelude/Keyed.antt =====
-- A Go map with string keys, as an association list.
use Prim.Native.String.{String}
use mathlib.Core.Path.{◌≡◌, refl}
use mathlib.Core.Option.{Option, none, some}
use mathlib.Core.List.{List, [], ◌∷◌}
use native.Mathlib.Omega.{arith}
use text.Mathlib.Text.{◌==◌}
use text.Mathlib.TextEquality.{eq_iff}
use dota2_ob.Prelude.Tests.{if◌then◌else◌}

module _ {ℓ} {V : Type ℓ} where
  -- delete(entries, key)
  unfoldable pub delete : String → List (String × V) → List (String × V)
  delete key [] = []
  delete key ((name, old) ∷ entries) =
      let rest = delete key entries in if name == key then rest else (name, old) ∷ rest

  -- entries[key], with `none` for a missing key
  unfoldable pub lookup : String → List (String × V) → Option V
  lookup key [] = none
  lookup key ((name, old) ∷ entries) =
      let later = lookup key entries in if name == key then some old else later

  -- entries[key] = new
  unfoldable pub insert : String → V → List (String × V) → List (String × V)
  insert key new [] = (key, new) ∷ []
  insert key new ((name, old) ∷ entries) =
      let rest = insert key new entries in
      if name == key then (key, new) ∷ entries else (name, old) ∷ rest

  pub lookup-insert :
      (written read : String) (new : V) (entries : List (String × V))
      → lookup read (insert written new entries)
        ≡ (if written == read then some new else lookup read entries)
  unfolding insert lookup
  lookup-insert written read new [] = refl
  lookup-insert written read new ((name, old) ∷ entries) = ground (
    arith,
    lookup-insert written read new entries,
    eq_iff name written,
    eq_iff name read,
    eq_iff written read,
  )

  pub lookup-delete :
      (k j : String) (m : List (String × V))
      → lookup j (delete k m) ≡ (if k == j then none else lookup j m)
  unfolding lookup delete
  lookup-delete k j [] = ground arith
  lookup-delete k j ((i, v) ∷ m) =
      ground (arith, lookup-delete k j m, eq_iff i k, eq_iff i j, eq_iff k j)

  -- A map with a key is not empty.
  pub lookup-nil : (k : String) → lookup k [] ≡ none
  unfolding lookup
  lookup-nil k = refl

pub ruleset map_laws = (lookup-insert, lookup-delete, lookup-nil)
