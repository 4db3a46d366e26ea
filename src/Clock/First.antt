-- ===== src/Clock/First.antt =====
-- The first transition to a state, described by what stands before it.
use mathlib.Core.Path.{subst}
use mathlib.Core.Option.{none-ne-some, some-injective}
use dota2_ob.Prelude.{
  ◌≡◌, refl, sym, ap, ◌∙◌, inl, inr, Bool-cases, true, false, some, List, [], ◌∷◌, ◌++◌, All,
  if_first, if_else,
}
use dota2_ob.Prelude.Int.{ℤ, eqb_ℤ}
use dota2_ob.Clock.{Transition, first_to}

-- `t` is a transition to `s`, and none of those before it is.
pub record IsFirst {N : Type 0} (s : ℤ) (ts : List (Transition N)) (t : Transition N) : Type 0 where
  pub before : List (Transition N)
  pub after : List (Transition N)
  pub split : ts ≡ before ++ t ∷ after
  pub none_before : All (λ (u : Transition N). eqb_ℤ u.state s ≡ false) before
  pub here : eqb_ℤ t.state s ≡ true

IsFirst-cons :
    {N : Type 0} (s : ℤ) (u : Transition N) (ts : List (Transition N)) (t : Transition N)
    → eqb_ℤ u.state s ≡ false
    → IsFirst s ts t
    → IsFirst s (u ∷ ts) t
IsFirst-cons s u ts t other i = record {
  before = u ∷ i.before;
  after = i.after;
  split = ap (λ us. u ∷ us) i.split;
  none_before = (other, i.none_before);
  here = i.here;
}

pub first_to-IsFirst :
    {N : Type 0} (s : ℤ) (ts : List (Transition N)) (t : Transition N)
    → first_to s ts ≡ some t
    → IsFirst s ts t
unfolding first_to
first_to-IsFirst s [] t h = absurd (none-ne-some _ h)
first_to-IsFirst s (u ∷ ts) t h = elim (Bool-cases (eqb_ℤ u.state s)) [
  | inl here ↦
      subst (IsFirst s (u ∷ ts))
        (some-injective u t (sym (if_first (eqb_ℤ u.state s) _ _ here) ∙ h))
        (record { before = []; after = ts; split = refl; none_before = tt; here = here })
  | inr other ↦
      IsFirst-cons s u ts t other
        (first_to-IsFirst s ts t (sym (if_else (eqb_ℤ u.state s) _ _ other) ∙ h))
]

found :
    {N : Type 0} (s : ℤ) (before after : List (Transition N)) (t : Transition N)
    → All (λ (u : Transition N). eqb_ℤ u.state s ≡ false) before
    → eqb_ℤ t.state s ≡ true
    → first_to s (before ++ t ∷ after) ≡ some t
unfolding first_to
found s [] after t h e = rw e
found s (u ∷ before) after t h e = rw h.0 (found s before after t h.1 e)

pub IsFirst-first_to :
    {N : Type 0} (s : ℤ) (ts : List (Transition N)) (t : Transition N)
    → IsFirst s ts t
    → first_to s ts ≡ some t
IsFirst-first_to s ts t i =
    ap (first_to s) i.split ∙ found s i.before i.after t i.none_before i.here
