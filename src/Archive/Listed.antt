-- ===== src/Archive/Listed.antt =====
-- The manifest that Validate accepts.
use mathlib.Core.Logic.{◌↔◌}
use mathlib.Core.Option.{none-ne-some}
use dota2_ob.Prelude.{
  ℕ, suc, ◌≡◌, refl, sym, ◌≢◌, String, Bool, true, false, Option, none, some, List, [], ◌∷◌, map,
  All, length, is_empty, lookup, insert, str_eq, arith, if◌then◌else◌,
}
use dota2_ob.Prelude.Keys.{was_seen, Distinct, Unseen, Unseen-nil, Unseen-insert}
use dota2_ob.Archive.{
  Match, Manifest, ManifestError, match_error, first_error, validate_matches, validate,
}

-- An entry with an id, two teams, ten participants and both hashes.
pub record IsListed (mt : Match) : Type 0 where
  pub id : str_eq mt.match_id "" ≡ false
  pub teams : length mt.expected_teams ≡ 2
  pub participants : length mt.expected_participants ≡ 10
  pub archive_hash : str_eq mt.archive_sha256 "" ≡ false
  pub demo_hash : str_eq mt.demo_sha256 "" ≡ false

pub id_of : Match → String
id_of mt = mt.match_id

match_error-IsListed :
    (i : ℕ) (seen : Bool) (mt : Match) → match_error i seen mt ≡ none → IsListed mt × (seen ≡ false)
unfolding match_error
match_error-IsListed i seen mt h = (
  record {
    id = ground arith;
    teams = ground arith;
    participants = ground arith;
    archive_hash = ground arith;
    demo_hash = ground arith;
  },
  ground arith,
)

IsListed-match_error : (i : ℕ) (mt : Match) → IsListed mt → match_error i false mt ≡ none
unfolding match_error
IsListed-match_error i mt l = ground arith

first_error-none :
    (e rest : Option ManifestError) → first_error e rest ≡ none → (e ≡ none) × (rest ≡ none)
first_error-none none rest h = (refl, h)
first_error-none (some e) rest h = absurd (none-ne-some _ (sym h))

validate_matches_sound :
    (i : ℕ) (seen : List (String × Bool)) (ms : List Match)
    → validate_matches i seen ms ≡ none
    → All IsListed ms × Distinct (map id_of ms) × Unseen seen (map id_of ms)
unfolding validate_matches id_of
validate_matches_sound i seen [] h = (tt, tt, tt)
validate_matches_sound i seen (mt ∷ ms) h =
    let (fine, later) =
      first_error-none (match_error i (was_seen (lookup mt.match_id seen)) mt) _ h in
    let (listed, new) = match_error-IsListed i (was_seen (lookup mt.match_id seen)) mt fine in
    let (all, distinct, unseen) =
      validate_matches_sound (suc i) (insert mt.match_id true seen) ms later in
    let (others, before) = (Unseen-insert mt.match_id seen (map id_of ms)).0 unseen in
    ((listed, all), (others, distinct), (new, before))

validate_matches_complete :
    (i : ℕ) (seen : List (String × Bool)) (ms : List Match)
    → All IsListed ms
    → Distinct (map id_of ms)
    → Unseen seen (map id_of ms)
    → validate_matches i seen ms ≡ none
unfolding validate_matches id_of
validate_matches_complete i seen [] l d u = refl
validate_matches_complete i seen (mt ∷ ms) l d u =
    rw (u.0, IsListed-match_error i mt l.0)
      (validate_matches_complete (suc i) (insert mt.match_id true seen) ms l.1 d.1
        ((Unseen-insert mt.match_id seen (map id_of ms)).1 (d.0, u.1)))

-- Validate accepts exactly the manifests that have an entry, whose entries all have an id, two teams,
-- ten participants and both hashes, and in which no id is repeated.
pub validate_accepts :
    (m : Manifest)
    → (validate m ≡ none)
      ↔ ((m.matches ≢ []) × All IsListed m.matches × Distinct (map id_of m.matches))
unfolding validate
validate_accepts m = of_matches m.matches
  where
    of_matches :
        (ms : List Match)
        → ((if is_empty ms then some ManifestError.no_matches else validate_matches 0 [] ms) ≡ none)
          ↔ ((ms ≢ []) × All IsListed ms × Distinct (map id_of ms))
    of_matches [] = (λ h. absurd (none-ne-some _ (sym h)), λ h. absurd (h.0 refl))
    of_matches (mt ∷ ms) = (
      λ h.
          let (all, distinct, unseen) = validate_matches_sound 0 [] (mt ∷ ms) h in
          (λ e. cc, all, distinct),
      λ h. validate_matches_complete 0 [] (mt ∷ ms) h.1 h.2 (Unseen-nil (id_of mt ∷ map id_of ms)),
    )
