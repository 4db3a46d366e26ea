-- ===== src/Prelude/Guards.antt =====
-- Chains of guards read backwards: what such a chain ends with has passed each of its guards, where a
-- guard leaves with something else.
use mathlib.Core.Path.{◌≡◌, refl, sym, ◌∙◌}
use mathlib.Core.Bool.{Bool, true, false, not, false≢true}
use mathlib.Core.Option.{Option, none, some, none-ne-some}
use Prim.Native.String.{String}
use text.Mathlib.Text.{◌==◌ as str_eq}
use text.Mathlib.TextEquality.{eq_iff}
use dota2_ob.Prelude.Tests.{if◌then◌else◌}

pub apart : (s t : String) → str_eq s t ≡ false → ¬ (s ≡ t)
apart s t n h = false≢true (sym n ∙ (eq_iff s t).1 h)

-- Results with a state, of which one is good.
module _ {A : Type 0} (state : A → String) (good : String) where
  pub past_guard :
      (b : Bool) (x y : A)
      → str_eq (state x) good ≡ false
      → state (if not b then x else y) ≡ good
      → (b ≡ true) × (state y ≡ good)
  past_guard true x y n h = (refl, h)
  past_guard false x y n h = absurd (apart (state x) good n h)

  pub past_test :
      (b : Bool) (x y : A)
      → str_eq (state x) good ≡ false
      → state (if b then x else y) ≡ good
      → (b ≡ false) × (state y ≡ good)
  past_test false x y n h = (refl, h)
  past_test true x y n h = absurd (apart (state x) good n h)

-- The same for errors, where `none` is none.
pub guard_passed {ℓ} :
    {E : Type ℓ} (b : Bool) (e : E) (x : Option E)
    → (if not b then some e else x) ≡ none
    → (b ≡ true) × (x ≡ none)
guard_passed true e x h = (refl, h)
guard_passed false e x h = absurd (none-ne-some _ (sym h))

pub test_passed {ℓ} :
    {E : Type ℓ} (b : Bool) (e : E) (x : Option E)
    → (if b then some e else x) ≡ none
    → (b ≡ false) × (x ≡ none)
test_passed false e x h = (refl, h)
test_passed true e x h = absurd (none-ne-some _ (sym h))
