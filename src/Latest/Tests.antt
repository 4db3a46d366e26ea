-- ===== src/Latest/Tests.antt =====
-- Two updates of the projection of internal/state/latest.go, over a few JSON values.
use mathlib.Core.Bool.{false≢true}
use mathlib.Core.Option.{none-ne-some, some-injective}
use dota2_ob.Prelude.{
  sym, ap, ◌∙◌, ℕ, ◌+◌, ◌≡◌, refl, true, false, Bool, String, Option, none, some, List, [], ◌∷◌,
  length, arith,
}
use dota2_ob.Prelude.Int.{pos}
use dota2_ob.Prelude.Time.{Time}
use dota2_ob.Latest.{AnyOps, new_latest, update, snapshot}
use dota2_ob.Latest.Shown.{updates, shown_snapshot, round_trip, AnyLaws, snapshot-updates}

data Value : Type 0 where
  null : Value
  number : ℕ → Value
  field : String → ℕ → Value

abbrev is_null : Value → Bool
is_null null = true
is_null _ = false

abbrev fields : Value → Option (List (String × Value))
fields (field key n) = some ((key, number n) ∷ [])
fields _ = none

abbrev print : Value → Option (List ℕ)
print null = some []
print (number n) = some (n ∷ [])
print (field key n) = none

abbrev parse : List ℕ → Option Value
parse [] = some null
parse (n ∷ []) = some (number n)
parse _ = none

abbrev values : AnyOps Value
values = record {
  nil = null;
  is_nil = is_null;
  as_object = fields;
  marshal = print;
  unmarshal = parse;
}

abbrev earlier : List (Time × Value)
earlier = (pos 1, field "map" 3) ∷ (pos 2, null) ∷ []

read_back : (v w : Value) → round_trip values v ≡ some w → w ≡ v
read_back null w e = sym (some-injective _ _ e)
read_back (number n) w e = sym (some-injective _ _ e)
read_back (field key n) w e = absurd (none-ne-some _ e)

values_laws : AnyLaws values
values_laws = record {
  nil_is_nil = refl;
  nil_alone = λ v e.
      elim v as (λ v. is_null v ≡ true → v ≡ null) [
        | null ↦ λ h. refl
        | number n ↦ λ h. absurd (false≢true h)
        | field key n ↦ λ h. absurd (false≢true h)
      ]
        e;
  stable = λ v w e is_value. ap (round_trip values) (read_back v w e) ∙ e;
}

snapshot-updates_example :
    snapshot values "match"
      (update values (pos 3) (field "hero" 9) (updates values earlier new_latest))
    ≡ shown_snapshot values "match" (pos 3) (length earlier + 1) (field "hero" 9)
snapshot-updates_example =
    snapshot-updates values earlier (pos 3) (field "hero" 9) "match" values_laws (omega arith)
