-- ===== src/Roles/Lookup.antt =====
-- The nested search for a role record, as one search through all the rows of the registry.
use mathlib.Core.Logic.{◌↔◌}
use mathlib.Core.Option.{none-ne-some}
use mathlib.Core.Bool.{true≢false}
use dota2_ob.Prelude.{
  ◌≡◌, refl, sym, ap, ◌∙◌, inl, inr, Bool-cases, String, Bool, true, false, ◌&&◌, Option, none,
  some, List, [], ◌∷◌, ◌++◌, append_assoc, All, str_eq, if◌then◌else◌,
}
use dota2_ob.Roles.{
  RoleRecord, RoleTeam, RoleMatch, Registry, OverrideFile, RawRole, raw_role, raw_in_team,
  raw_in_match, raw_in, raw, effective, effective_of,
}

-- A participant with its team, and the id of the match.
abbrev pub Row : Type 0
Row = String × RoleTeam × RoleRecord

abbrev pub team_rows : String → RoleTeam → List RoleRecord → List Row
team_rows id t [] = []
team_rows id t (p ∷ ps) = (id, t, p) ∷ team_rows id t ps

abbrev pub match_rows : String → List RoleTeam → List Row
match_rows id [] = []
match_rows id (t ∷ ts) = team_rows id t t.participants ++ match_rows id ts

abbrev pub rows : List RoleMatch → List Row
rows [] = []
rows (m ∷ ms) = match_rows m.match_id m.teams ++ rows ms

abbrev pub is_row_for : String → String → Row → Bool
is_row_for match_id account (id, t, p) = str_eq id match_id && str_eq p.account_id account

-- The first row for the pair.
abbrev pub first_row : String → String → List Row → Option RawRole
first_row match_id account [] = none
first_row match_id account (row ∷ rest) =
    let later = first_row match_id account rest in
    if is_row_for match_id account row then some (raw_role row.1 row.2) else later

module _ (match_id account : String) where
  in_team :
      (id : String) (t : RoleTeam) (ps : List RoleRecord) (rest : List Row)
      → str_eq id match_id ≡ true
      → raw_in_team account t ps (first_row match_id account rest)
        ≡ first_row match_id account (team_rows id t ps ++ rest)
  unfolding raw_in_team
  in_team id t [] rest h = refl
  in_team id t (p ∷ ps) rest h = rw (h, in_team id t ps rest h) refl

  other_team :
      (id : String) (t : RoleTeam) (ps : List RoleRecord) (rest : List Row)
      → str_eq id match_id ≡ false
      → first_row match_id account rest ≡ first_row match_id account (team_rows id t ps ++ rest)
  other_team id t [] rest h = refl
  other_team id t (p ∷ ps) rest h = rw h (other_team id t ps rest h)

  in_match :
      (id : String) (ts : List RoleTeam) (rest : List Row)
      → str_eq id match_id ≡ true
      → raw_in_match account ts (first_row match_id account rest)
        ≡ first_row match_id account (match_rows id ts ++ rest)
  unfolding raw_in_match
  in_match id [] rest h = refl
  in_match id (t ∷ ts) rest h =
      ap (raw_in_team account t t.participants) (in_match id ts rest h)
      ∙ in_team id t t.participants (match_rows id ts ++ rest) h
      ∙ ap (first_row match_id account)
          (sym (append_assoc (team_rows id t t.participants) (match_rows id ts) rest))

  other_match :
      (id : String) (ts : List RoleTeam) (rest : List Row)
      → str_eq id match_id ≡ false
      → first_row match_id account rest ≡ first_row match_id account (match_rows id ts ++ rest)
  other_match id [] rest h = refl
  other_match id (t ∷ ts) rest h =
      other_match id ts rest h
      ∙ other_team id t t.participants (match_rows id ts ++ rest) h
      ∙ ap (first_row match_id account)
          (sym (append_assoc (team_rows id t t.participants) (match_rows id ts) rest))

  raw_in-eq-first_row :
      (ms : List RoleMatch) → raw_in match_id account ms ≡ first_row match_id account (rows ms)
  unfolding raw_in
  raw_in-eq-first_row [] = refl
  raw_in-eq-first_row (m ∷ ms) = elim (Bool-cases (str_eq m.match_id match_id)) [
    | inl here ↦ rw (here, raw_in-eq-first_row ms) (in_match m.match_id m.teams (rows ms) here)
    | inr other ↦
        rw (other, raw_in-eq-first_row ms) (other_match m.match_id m.teams (rows ms) other)
  ]

-- The search through matches, teams and participants finds the first row of the registry for the
-- match and the account, whether or not the match is listed once.
pub raw-eq-first_row :
    (r : Registry) (match_id account : String)
    → raw r match_id account ≡ first_row match_id account (rows r.matches)
unfolding raw
raw-eq-first_row r match_id account = raw_in-eq-first_row match_id account r.matches

first_row-none :
    (match_id account : String) (rs : List Row)
    → (first_row match_id account rs ≡ none)
      ↔ All (λ row. is_row_for match_id account row ≡ false) rs
first_row-none match_id account [] = (λ h. tt, λ h. refl)
first_row-none match_id account (row ∷ rs) = elim (Bool-cases (is_row_for match_id account row)) [
  | inl here ↦ rw here (λ h. absurd (none-ne-some _ (sym h)), λ h. absurd (true≢false h.0))
  | inr other ↦ rw other (
    λ h. (refl, (first_row-none match_id account rs).0 h),
    λ h. (first_row-none match_id account rs).1 h.1,
  )
]

effective_of-none :
    (r : Registry) (match_id account : String) (overrides : Option OverrideFile)
    (base : Option RawRole)
    → (effective_of r match_id account overrides base ≡ none) ↔ (base ≡ none)
effective_of-none r match_id account overrides none = (λ h. refl, λ h. refl)
effective_of-none r match_id account overrides (some base) =
    (λ h. absurd (none-ne-some _ (sym h)), λ h. absurd (none-ne-some _ (sym h)))

-- There is no effective role exactly if the registry has no row for the match and the account,
-- whatever the overrides.
pub effective-none :
    (r : Registry) (match_id account : String) (overrides : Option OverrideFile)
    → (effective r match_id account overrides ≡ none)
      ↔ All (λ row. is_row_for match_id account row ≡ false) (rows r.matches)
unfolding effective
effective-none r match_id account overrides =
    let found : raw r match_id account ≡ first_row match_id account (rows r.matches) =
      raw-eq-first_row r match_id account in
    let as_raw : (effective r match_id account overrides ≡ none) ↔ (raw r match_id account ≡ none) =
      effective_of-none r match_id account overrides (raw r match_id account) in
    let as_rows : (first_row match_id account (rows r.matches) ≡ none)
        ↔ All (λ row. is_row_for match_id account row ≡ false) (rows r.matches) =
      first_row-none match_id account (rows r.matches) in
    (λ h. as_rows.0 (sym found ∙ as_raw.0 h), λ h. as_raw.1 (found ∙ as_rows.1 h))
