-- ===== src/Roles/Provenance.antt =====
-- Where the fields of an effective role come from.
use mathlib.Core.Path.{subst}
use mathlib.Core.Option.{none-ne-some, some-injective}
use dota2_ob.Prelude.{
  ◌≡◌, refl, sym, ap, ◌∙◌, inl, inr, Bool-cases, String, false, Option, none, some, List, [], ◌∷◌,
  ◌++◌, All, eq_iff, arith, if_first, if_else,
}
use dota2_ob.Roles.{
  RoleRecord, RoleTeam, Registry, Override, OverrideFile, EffectiveRole, RawRole, raw_role, raw,
  base_role, is_for, apply_override, apply_first, overridden, effective_of, effective,
}
use dota2_ob.Roles.Lookup.{Row, rows, is_row_for, first_row, raw-eq-first_row}

-- The first row of a list for the match and the account.
pub record FirstRow (match_id account : String) (rs : List Row) (t : RoleTeam) (p : RoleRecord)
    : Type 0 where
  pub before : List Row
  pub after : List Row
  pub split : rs ≡ before ++ ((match_id, t, p) ∷ after)
  pub account_id : p.account_id ≡ account
  pub none_before : All (λ row. is_row_for match_id account row ≡ false) before

-- What the role says of its source is what the registry says in the row.
pub record IsSourced (r : Registry) (match_id account : String) (t : RoleTeam) (p : RoleRecord)
    (eff : EffectiveRole) : Type 0 where
  pub tournament : eff.tournament_id ≡ r.tournament_id
  pub match_is : eff.match_id ≡ match_id
  pub account_is : eff.account_id ≡ account
  pub team : eff.team_id ≡ t.team_id
  pub team_name : eff.team_name ≡ t.team_name
  pub player : eff.player_name ≡ p.player_name
  pub role : eff.source_nominal_role ≡ p.nominal_role
  pub kind : eff.source_kind ≡ t.source_kind
  pub url : eff.source_url ≡ t.source_url
  pub locator : eff.source_locator ≡ t.source_locator
  pub retrieved : eff.retrieved_at ≡ t.retrieved_at
  pub confidence : eff.confidence ≡ p.role_confidence
  pub version : eff.record_version ≡ r.schema_version

apply_first-IsSourced :
    (r : Registry) (match_id account : String) (t : RoleTeam) (p : RoleRecord) (os : List Override)
    (eff : EffectiveRole)
    → IsSourced r match_id account t p eff
    → IsSourced r match_id account t p (apply_first match_id account os eff)
unfolding apply_first
apply_first-IsSourced r match_id account t p [] eff s = s
apply_first-IsSourced r match_id account t p (o ∷ os) eff s =
    let later : EffectiveRole = apply_first match_id account os eff in
    elim (Bool-cases (is_for match_id account o)) [
      | inl here ↦
          subst (IsSourced r match_id account t p)
            (sym (if_first (is_for match_id account o) (apply_override o eff) later here))
            (record {
              tournament = s.tournament;
              match_is = s.match_is;
              account_is = s.account_is;
              team = s.team;
              team_name = s.team_name;
              player = s.player;
              role = s.role;
              kind = s.kind;
              url = s.url;
              locator = s.locator;
              retrieved = s.retrieved;
              confidence = s.confidence;
              version = s.version;
            })
      | inr other ↦
          subst (IsSourced r match_id account t p)
            (sym (if_else (is_for match_id account o) (apply_override o eff) later other))
            (apply_first-IsSourced r match_id account t p os eff s)
    ]

base_role-IsSourced :
    (r : Registry) (match_id account : String) (t : RoleTeam) (p : RoleRecord)
    → IsSourced r match_id account t p (base_role r match_id account (raw_role t p))
base_role-IsSourced r match_id account t p = record {
  tournament = refl;
  match_is = refl;
  account_is = refl;
  team = refl;
  team_name = refl;
  player = refl;
  role = refl;
  kind = refl;
  url = refl;
  locator = refl;
  retrieved = refl;
  confidence = refl;
  version = refl;
}

overridden-IsSourced :
    (r : Registry) (match_id account : String) (t : RoleTeam) (p : RoleRecord)
    (overrides : Option OverrideFile)
    → IsSourced r match_id account t p
        (overridden match_id account overrides (base_role r match_id account (raw_role t p)))
overridden-IsSourced r match_id account t p none = base_role-IsSourced r match_id account t p
overridden-IsSourced r match_id account t p (some file) =
    apply_first-IsSourced r match_id account t p file.overrides
      (base_role r match_id account (raw_role t p)) (base_role-IsSourced r match_id account t p)

first_row-FirstRow :
    (match_id account : String) (rs : List Row) (base : RawRole)
    → first_row match_id account rs ≡ some base
    → (t : RoleTeam) × (p : RoleRecord) × FirstRow match_id account rs t p × (base ≡ raw_role t p)
first_row-FirstRow match_id account [] base h = absurd (none-ne-some _ h)
first_row-FirstRow match_id account ((id, t, p) ∷ rs) base h =
    elim (Bool-cases (is_row_for match_id account (id, t, p))) [
      | inl here ↦ (
        t,
        p,
        record {
          before = [];
          after = rs;
          split =
              let same : id ≡ match_id = ground (arith, eq_iff id match_id) in
              ap (λ k. (k, t, p) ∷ rs) same;
          account_id = ground (arith, eq_iff p.account_id account);
          none_before = tt;
        },
        some-injective _ _ (sym h ∙ if_first (is_row_for match_id account (id, t, p)) _ _ here),
      )
      | inr other ↦
          let (u, q, first, same) =
            first_row-FirstRow match_id account rs base
              (sym (if_else (is_row_for match_id account (id, t, p)) _ _ other) ∙ h) in
          (
            u,
            q,
            record {
              before = (id, t, p) ∷ first.before;
              after = first.after;
              split = ap (λ qs. (id, t, p) ∷ qs) first.split;
              account_id = first.account_id;
              none_before = (other, first.none_before);
            },
            same,
          )
    ]

effective_of-IsSourced :
    (r : Registry) (match_id account : String) (overrides : Option OverrideFile)
    (base : Option RawRole) (eff : EffectiveRole)
    → base ≡ first_row match_id account (rows r.matches)
    → effective_of r match_id account overrides base ≡ some eff
    → (t : RoleTeam) × (p : RoleRecord) × FirstRow match_id account (rows r.matches) t p
      × IsSourced r match_id account t p eff
effective_of-IsSourced r match_id account overrides none eff found h = absurd (none-ne-some _ h)
effective_of-IsSourced r match_id account overrides (some base) eff found h =
    let (t, p, first, same) =
      first_row-FirstRow match_id account (rows r.matches) base (sym found) in
    (
      t,
      p,
      first,
      subst (IsSourced r match_id account t p)
          (ap (λ b. overridden match_id account overrides (base_role r match_id account b))
              (sym same)
            ∙ some-injective _ _ h)
          (overridden-IsSourced r match_id account t p overrides),
    )

-- An effective role has the tournament, team, player, source role, confidence and the four facts of
-- provenance of the first row of the registry for the match and the account, whatever the
-- overrides.
pub effective-IsSourced :
    (r : Registry) (match_id account : String) (overrides : Option OverrideFile)
    (eff : EffectiveRole)
    → effective r match_id account overrides ≡ some eff
    → (t : RoleTeam) × (p : RoleRecord) × FirstRow match_id account (rows r.matches) t p
      × IsSourced r match_id account t p eff
unfolding effective
effective-IsSourced r match_id account overrides eff h =
    effective_of-IsSourced r match_id account overrides (raw r match_id account) eff
      (raw-eq-first_row r match_id account) h
