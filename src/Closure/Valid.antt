-- ===== src/Closure/Valid.antt =====
-- A closure that passes Validate: what holds of it, and that a look-up finds every row.
use mathlib.Core.Path.{subst}
use mathlib.Core.Logic.{◌↔◌}
use mathlib.Core.List.{Memᴰ}
use mathlib.Core.Option.{none-ne-some}
use dota2_ob.Prelude.Guards.{guard_passed}
use dota2_ob.Prelude.{
  ℕ, ◌+◌, ◌≡◌, refl, sym, ap, ◌∙◌, true, false, not, Option, none, some, List, [], ◌∷◌, ◌==◌,
  ==_iff, All, length, str_eq, eq_iff, if_first, if_else, arith,
}
use dota2_ob.Prelude.Int.{pos, eqb_ℤ, eq_of_parts}
use dota2_ob.Closure.{
  ClosureRow, Closure, ClosureError, closure_schema_version, validate_rows, count_error, validate,
  find_row,
}
use dota2_ob.Closure.Rows.{
  IsValid, Distinct, Unseen-nil, validate_rows_sound, validate_rows_complete,
}

-- The contract: 52 valid rows with distinct ids, counted right, of the schema's version.
pub record IsClosed (c : Closure) : Type 0 where
  pub schema : c.schema_version ≡ closure_schema_version
  pub rows : length c.metrics ≡ 52
  pub valid : All IsValid c.metrics
  pub distinct : Distinct c.metrics
  pub counted : c.count ≡ pos (length c.metrics)

count_error-none :
    (c : Closure) (e : Option ClosureError)
    → count_error c e ≡ none
    → (e ≡ none) × (eqb_ℤ c.count (pos (length c.metrics)) ≡ true)
count_error-none c (some e) h = absurd (none-ne-some _ (sym h))
count_error-none c none h =
    (refl, (guard_passed (eqb_ℤ c.count (pos (length c.metrics))) _ none h).0)

validate-IsClosed : (c : Closure) → validate c ≡ none → IsClosed c
unfolding validate
validate-IsClosed c h =
    let (schema, counted) = guard_passed (str_eq c.schema_version closure_schema_version) _ _ h in
    let (rows, checked) = guard_passed (length c.metrics == 52) _ _ counted in
    let (accepted, count) = count_error-none c (validate_rows 0 [] c.metrics) checked in
    let (valid, distinct, unseen) = validate_rows_sound 0 [] c.metrics accepted in
    record {
      schema = (eq_iff c.schema_version closure_schema_version).0 schema;
      rows = (==_iff (length c.metrics) 52).0 rows;
      valid = valid;
      distinct = distinct;
      counted = eq_of_parts c.count (pos (length c.metrics)) (ground arith);
    }

IsClosed-validate : (c : Closure) → IsClosed c → validate c ≡ none
unfolding validate
IsClosed-validate c k =
    let n : ℕ = length c.metrics in
    let count : eqb_ℤ c.count (pos n) ≡ true =
      ap (λ z. eqb_ℤ z (pos n)) k.counted ∙ (==_iff (n + 0) (n + 0)).1 refl in
    if_else (not (str_eq c.schema_version closure_schema_version)) _ _
      (ap not ((eq_iff c.schema_version closure_schema_version).1 k.schema))
    ∙ if_else (not (n == 52)) _ _ (ap not ((==_iff n 52).1 k.rows))
    ∙ ap (count_error c)
        (validate_rows_complete 0 [] c.metrics k.valid k.distinct (Unseen-nil c.metrics))
    ∙ if_else (not (eqb_ℤ c.count (pos n))) _ _ (ap not count)

-- Validate accepts exactly the closures that keep the contract.
pub validate_iff : (c : Closure) → (validate c ≡ none) ↔ IsClosed c
validate_iff c = (validate-IsClosed c, IsClosed-validate c)

All-Mem : {A : Type 0} (P : A → Type 0) (x : A) (xs : List A) → All P xs → Memᴰ x xs → P x
All-Mem P x [] h m = elim m [ ]
All-Mem P x (y ∷ ys) h (Memᴰ.head e) = subst P (sym e) h.0
All-Mem P x (y ∷ ys) h (Memᴰ.tail m) = All-Mem P x ys h.1 m

find_row-Mem :
    (rows : List ClosureRow) (r : ClosureRow)
    → Distinct rows
    → Memᴰ r rows
    → find_row r.metric_id rows ≡ some r
unfolding find_row
find_row-Mem [] r d m = elim m [ ]
find_row-Mem (q ∷ rows) r d (Memᴰ.head e) =
    if_first (str_eq q.metric_id r.metric_id) _ _
      ((eq_iff q.metric_id r.metric_id).1 (ap (λ (s : ClosureRow). s.metric_id) (sym e)))
    ∙ ap some (sym e)
find_row-Mem (q ∷ rows) r d (Memᴰ.tail m) =
    rw (All-Mem (λ (s : ClosureRow). str_eq q.metric_id s.metric_id ≡ false) r rows d.0 m)
      (find_row-Mem rows r d.1 m)

-- In a closure that Validate accepts, looking up the id of a row finds that row.
pub find_row-validate :
    (c : Closure) (r : ClosureRow)
    → validate c ≡ none
    → Memᴰ r c.metrics
    → find_row r.metric_id c.metrics ≡ some r
find_row-validate c r h m = find_row-Mem c.metrics r (validate-IsClosed c h).distinct m
