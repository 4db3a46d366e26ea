-- ===== src/Prelude/Keys.antt =====
-- A Go map[string]bool that marks the keys of a loop, and lists of keys with no repetition.
use mathlib.Core.Logic.{◌↔◌}
use Prim.Native.String.{String}
use mathlib.Core.Path.{◌≡◌, refl}
use mathlib.Core.Bool.{Bool, true, false}
use mathlib.Core.Option.{Option, none, some}
use mathlib.Core.List.{List, [], ◌∷◌}
use native.Mathlib.Omega.{arith}
use text.Mathlib.Text.{◌==◌}
use dota2_ob.Prelude.Tests.{if◌then◌else◌}
use dota2_ob.Prelude.Lists.{All}
use dota2_ob.Prelude.Keyed.{lookup, insert, lookup-insert}

-- seen[key], with false for a missing key
abbrev pub was_seen : Option Bool → Bool
was_seen none = false
was_seen (some b) = b

abbrev pub Unlike : String → List String → Type 0
Unlike key keys = All (λ k. (key == k) ≡ false) keys

abbrev pub Distinct : List String → Type 0
Distinct [] = Unit
Distinct (k ∷ ks) = Unlike k ks × Distinct ks

abbrev pub Unseen : List (String × Bool) → List String → Type 0
Unseen seen keys = All (λ k. was_seen (lookup k seen) ≡ false) keys

pub Unseen-nil : (keys : List String) → Unseen [] keys
unfolding lookup
Unseen-nil [] = tt
Unseen-nil (k ∷ ks) = (refl, Unseen-nil ks)

was_seen-insert :
    (id key : String) (seen : List (String × Bool))
    → was_seen (lookup key (insert id true seen))
      ≡ (if id == key then true else was_seen (lookup key seen))
was_seen-insert id key seen = ground (arith, lookup-insert id key true seen)

pub Unseen-insert :
    (id : String) (seen : List (String × Bool)) (keys : List String)
    → Unseen (insert id true seen) keys ↔ (Unlike id keys × Unseen seen keys)
Unseen-insert id seen [] = (λ h. (tt, tt), λ h. tt)
Unseen-insert id seen (k ∷ ks) =
    let rest = Unseen-insert id seen ks in
    (
      λ h.
          let both : ((id == k) ≡ false) × (was_seen (lookup k seen) ≡ false) =
            ground (arith, was_seen-insert id k seen, h.0) in
          ((both.0, (rest.0 h.1).0), (both.1, (rest.0 h.1).1)),
      λ h. (ground (arith, was_seen-insert id k seen, h.0.0, h.1.0), rest.1 (h.0.1, h.1.1)),
    )
