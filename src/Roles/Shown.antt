-- ===== src/Roles/Shown.antt =====
-- Which override an effective role shows.
use mathlib.Core.Path.{subst}
use mathlib.Core.Option.{none-ne-some, some-injective}
use dota2_ob.Prelude.{
  ◌≡◌, ◌≢◌, refl, sym, ap, ◌⊎◌, inl, inr, Bool-cases, String, true, false, Option, none, some, List,
  [], ◌∷◌, ◌++◌, All, eq_iff, arith, if_first, if_else,
}
use dota2_ob.Roles.{
  Registry, Override, OverrideFile, EffectiveRole, RawRole, raw, base_role, is_for, unless_empty,
  apply_override, apply_first, overridden, effective_of, effective,
}

-- The first override of a list for the match and the account.
abbrev pub IsFor : String → String → Override → Type 0
IsFor match_id account o = (o.match_id ≡ match_id) × (o.account_id ≡ account)

abbrev pub IsOther : String → String → Override → Type 0
IsOther match_id account o = (o.match_id ≢ match_id) ⊎ (o.account_id ≢ account)

pub record FirstFor (match_id account : String) (os : List Override) (o : Override) : Type 0 where
  pub before : List Override
  pub after : List Override
  pub split : os ≡ before ++ (o ∷ after)
  pub here : IsFor match_id account o
  pub others : All (IsOther match_id account) before

-- A pointer to a string that is left nil for an empty one.
abbrev pub IsKept : String → Option String → Type 0
IsKept s kept = ((s ≡ "") × (kept ≡ none)) ⊎ ((s ≢ "") × (kept ≡ some s))

-- The role shows the override.
pub record Shows (o : Override) (eff : EffectiveRole) : Type 0 where
  pub role : eff.nominal_role ≡ o.nominal_role
  pub applied : eff.override_applied ≡ true
  pub reason : eff.override_reason ≡ some o.reason
  pub at : IsKept o.applied_at eff.override_at
  pub author : IsKept o.author eff.override_author
  pub version : eff.override_version ≡ some "ti2026.roles.v1"

-- The role shows no override: it is the source's.
pub record IsPlain (eff : EffectiveRole) : Type 0 where
  pub role : eff.nominal_role ≡ eff.source_nominal_role
  pub applied : eff.override_applied ≡ false
  pub reason : eff.override_reason ≡ none
  pub at : eff.override_at ≡ none
  pub author : eff.override_author ≡ none
  pub version : eff.override_version ≡ none

-- Either no override is for the pair and the role is plain, or the role shows the first that is.
abbrev pub Overridden : String → String → List Override → EffectiveRole → Type 0
Overridden match_id account os eff =
    (All (IsOther match_id account) os × IsPlain eff)
    ⊎ ((o : Override) × FirstFor match_id account os o × Shows o eff)

unless_empty-IsKept : (s : String) → IsKept s (unless_empty s)
unless_empty-IsKept s = ground (arith, eq_iff s "")

is_for-IsFor :
    (match_id account : String) (o : Override)
    → is_for match_id account o ≡ true
    → IsFor match_id account o
is_for-IsFor match_id account o h =
    ground (arith, eq_iff o.match_id match_id, eq_iff o.account_id account)

is_for-IsOther :
    (match_id account : String) (o : Override)
    → is_for match_id account o ≡ false
    → IsOther match_id account o
is_for-IsOther match_id account o h =
    ground (arith, eq_iff o.match_id match_id, eq_iff o.account_id account)

Overridden-cons :
    (match_id account : String) (o : Override) (os : List Override) (eff : EffectiveRole)
    → IsOther match_id account o
    → Overridden match_id account os eff
    → Overridden match_id account (o ∷ os) eff
Overridden-cons match_id account o os eff other (inl (others, plain)) = inl ((other, others), plain)
Overridden-cons match_id account o os eff other (inr (q, first, shows)) = inr (
  q,
  record {
    before = o ∷ first.before;
    after = first.after;
    split = ap (λ qs. o ∷ qs) first.split;
    here = first.here;
    others = (other, first.others);
  },
  shows,
)

apply_first-Overridden :
    (match_id account : String) (os : List Override) (eff : EffectiveRole)
    → IsPlain eff
    → Overridden match_id account os (apply_first match_id account os eff)
unfolding apply_first
apply_first-Overridden match_id account [] eff plain = inl (tt, plain)
apply_first-Overridden match_id account (o ∷ os) eff plain =
    let later : EffectiveRole = apply_first match_id account os eff in
    elim (Bool-cases (is_for match_id account o)) [
      | inl here ↦ inr (
        o,
        record {
          before = [];
          after = os;
          split = refl;
          here = is_for-IsFor match_id account o here;
          others = tt;
        },
        subst (Shows o) (sym (if_first (is_for match_id account o) _ later here)) (record {
          role = refl;
          applied = refl;
          reason = refl;
          at = unless_empty-IsKept o.applied_at;
          author = unless_empty-IsKept o.author;
          version = refl;
        }),
      )
      | inr other ↦
          subst (Overridden match_id account (o ∷ os))
            (sym (if_else (is_for match_id account o) (apply_override o eff) later other))
            (Overridden-cons match_id account o os later (is_for-IsOther match_id account o other)
              (apply_first-Overridden match_id account os eff plain))
    ]

abbrev pub overrides_of : Option OverrideFile → List Override
overrides_of none = []
overrides_of (some file) = file.overrides

overridden-Overridden :
    (match_id account : String) (overrides : Option OverrideFile) (eff : EffectiveRole)
    → IsPlain eff
    → Overridden match_id account
        (overrides_of overrides)
        (overridden match_id account overrides eff)
overridden-Overridden match_id account none eff plain = inl (tt, plain)
overridden-Overridden match_id account (some file) eff plain =
    apply_first-Overridden match_id account file.overrides eff plain

effective_of-Overridden :
    (r : Registry) (match_id account : String) (overrides : Option OverrideFile)
    (base : Option RawRole) (eff : EffectiveRole)
    → effective_of r match_id account overrides base ≡ some eff
    → Overridden match_id account (overrides_of overrides) eff
effective_of-Overridden r match_id account overrides none eff h = absurd (none-ne-some _ h)
effective_of-Overridden r match_id account overrides (some base) eff h =
    subst (Overridden match_id account (overrides_of overrides)) (some-injective _ _ h) (
      overridden-Overridden match_id account overrides (base_role r match_id account base) (record {
        role = refl;
        applied = refl;
        reason = refl;
        at = refl;
        author = refl;
        version = refl;
      }))

-- An effective role shows the first override whose match id and account id are both the role's, with
-- its role, reason, time and author, or, if there is none or no file of overrides, the source role
-- and no trace of an override.
pub effective-Overridden :
    (r : Registry) (match_id account : String) (overrides : Option OverrideFile)
    (eff : EffectiveRole)
    → effective r match_id account overrides ≡ some eff
    → Overridden match_id account (overrides_of overrides) eff
unfolding effective
effective-Overridden r match_id account overrides eff h =
    effective_of-Overridden r match_id account overrides (raw r match_id account) eff h
