-- ===== src/Registry/Agreement.antt =====
-- ValidateAgainstRegistry of internal/replay/metrics/closure.go.
use mathlib.Core.Logic.{◌↔◌}
use mathlib.Core.Option.{none-ne-some}
use mathlib.Core.List.{Permᴰ}
use mathlib.Core.List.Permᴰ
use dota2_ob.Prelude.Guards.{guard_passed}
use dota2_ob.Prelude.{
  ℕ, suc, ◌≡◌, refl, sym, ap, ◌∙◌, inl, inr, Bool-cases, String, Bool, true, false, not, Option,
  none, some, List, [], ◌∷◌, map, ◌==◌, ==_iff, length, is_none, str_eq, eq_iff, arith,
  if◌then◌else◌, if_else,
}
use dota2_ob.Prelude.Sort.{sort_strings}
use dota2_ob.Prelude.Sort.Sorted.{sort_strings-Perm}
use dota2_ob.Closure.{ClosureRow, Closure}
use dota2_ob.Registry.{Metric, Registry, find_metric, sorted_ids, id_of}

pub data AgreementError : Type 0 where
  no_registry : AgreementError
  other_count : ℕ → ℕ → AgreementError
  mismatch_at : ℕ → AgreementError
  unknown_id : String → AgreementError

abbrev pub row_id : ClosureRow → String
row_id r = r.metric_id

-- The loop over the two lists of ids, which have one length.
unfoldable pub compare_ids : ℕ → List String → List String → Option AgreementError
compare_ids i [] ys = none
compare_ids i (x ∷ xs) [] = none
compare_ids i (x ∷ xs) (y ∷ ys) =
    let rest = compare_ids (suc i) xs ys in if str_eq x y then rest else some (mismatch_at i)

-- The loop that looks up every row.
unfoldable pub find_rows : List Metric → List ClosureRow → Option AgreementError
find_rows ms [] = none
find_rows ms (r ∷ rs) =
    let rest = find_rows ms rs in
    if is_none (find_metric r.metric_id ms) then some (unknown_id r.metric_id) else rest

abbrev pub then_find : Option AgreementError → Option AgreementError → Option AgreementError
then_find none rest = rest
then_find (some e) rest = some e

abbrev pub check_ids : Closure → Registry → Option AgreementError
check_ids c r =
    let closure_ids = sort_strings (map row_id c.metrics) in
    if not (length (sorted_ids r) == length closure_ids)
    then some (other_count (length closure_ids) (length (sorted_ids r)))
    else then_find (compare_ids 0 (sorted_ids r) closure_ids) (find_rows r.metrics c.metrics)

abbrev pub check_registry : Closure → Option Registry → Option AgreementError
check_registry c none = some no_registry
check_registry c (some r) = check_ids c r

-- ValidateAgainstRegistry: `none` is no error.
unfoldable pub validate_against_registry : Closure → Option Registry → Option AgreementError
unfolding compare_ids find_rows sort_strings sorted_ids find_metric
validate_against_registry c reg = check_registry c reg

compare_ids-eq :
    (i : ℕ) (xs ys : List String) → length xs ≡ length ys → compare_ids i xs ys ≡ none → xs ≡ ys
unfolding compare_ids
compare_ids-eq i [] [] n h = refl
compare_ids-eq i [] (y ∷ ys) n h = absurd (omega arith)
compare_ids-eq i (x ∷ xs) [] n h = absurd (omega arith)
compare_ids-eq i (x ∷ xs) (y ∷ ys) n h = ground (arith, eq_iff x y, compare_ids-eq (suc i) xs ys)

compare_ids_self : (i : ℕ) (xs : List String) → compare_ids i xs xs ≡ none
unfolding compare_ids
compare_ids_self i [] = refl
compare_ids_self i (x ∷ xs) = rw ((eq_iff x x).1 refl) (compare_ids_self (suc i) xs)

has : String → List String → Bool
has k [] = false
has k (x ∷ xs) = if str_eq x k then true else has k xs

has-Perm : (k : String) {xs ys : List String} → Permᴰ xs ys → has k xs ≡ has k ys
unfolding has
has-Perm k Permᴰ.nil = refl
has-Perm k (Permᴰ.cons {a = a} {b = b} {l₁ = xs} {l₂ = ys} e d) = rw (e, has-Perm k d)
has-Perm k (Permᴰ.swap {a = a} {b = b} {a' = c} {b' = d} {l = l} p q) = rw (p, q) (ground arith)
has-Perm k (Permᴰ.trans d e) = has-Perm k d ∙ has-Perm k e

find_metric-has :
    (k : String) (ms : List Metric) → is_none (find_metric k ms) ≡ not (has k (map id_of ms))
unfolding find_metric has
find_metric-has k [] = refl
find_metric-has k (m ∷ ms) = elim (Bool-cases (str_eq m.id k)) [
  | inl here ↦ rw here
  | inr other ↦ rw other (find_metric-has k ms)
]

-- Rows whose ids all belong to a list.
AllIn : List String → List ClosureRow → Type 0
AllIn ids [] = Unit
AllIn ids (r ∷ rs) = (has r.metric_id ids ≡ true) × AllIn ids rs

find_rows-none :
    (ms : List Metric) (rs : List ClosureRow) → AllIn (map id_of ms) rs → find_rows ms rs ≡ none
unfolding find_rows AllIn
find_rows-none ms [] h = refl
find_rows-none ms (r ∷ rs) h =
    if_else (is_none (find_metric r.metric_id ms)) _ _ (find_metric-has r.metric_id ms ∙ ap not h.0)
    ∙ find_rows-none ms rs h.1

-- Every row's id belongs to the rows' ids.
later_rows :
    (k : String) (ids : List String) (rs : List ClosureRow) → AllIn ids rs → AllIn (k ∷ ids) rs
unfolding AllIn has
later_rows k ids [] h = tt
later_rows k ids (r ∷ rs) h = (ground arith, later_rows k ids rs h.1)

own_ids : (rs : List ClosureRow) → AllIn (map row_id rs) rs
unfolding AllIn has
own_ids [] = tt
own_ids (r ∷ rs) = (
  rw ((eq_iff r.metric_id r.metric_id).1 refl),
  later_rows r.metric_id (map row_id rs) rs (own_ids rs),
)

permuted_ids :
    {xs ys : List String} (rs : List ClosureRow) → Permᴰ xs ys → AllIn xs rs → AllIn ys rs
unfolding AllIn
permuted_ids [] d h = tt
permuted_ids (r ∷ rs) d h = (sym (has-Perm r.metric_id d) ∙ h.0, permuted_ids rs d h.1)

then_find-none :
    (e rest : Option AgreementError) → then_find e rest ≡ none → (e ≡ none) × (rest ≡ none)
then_find-none none rest h = (refl, h)
then_find-none (some e) rest h = absurd (none-ne-some _ (sym h))

-- A closure agrees with a registry exactly if the ids of its rows are those of the registry, each as
-- often, in whatever order. An id that both of them repeat equally often is accepted.
pub validate_against_registry-Perm :
    (c : Closure) (r : Registry)
    → (validate_against_registry c (some r) ≡ none)
      ↔ Permᴰ (map id_of r.metrics) (map row_id c.metrics)
unfolding validate_against_registry sorted_ids
validate_against_registry-Perm c r =
    let ids : List String = map id_of r.metrics in
    let rows : List String = map row_id c.metrics in
    let n : ℕ = length (sort_strings ids) in
    let m : ℕ = length (sort_strings rows) in
    (
      λ h.
          let (counted, later) = guard_passed (n == m) _ _ h in
          let (compared, _) =
            then_find-none (compare_ids 0 (sort_strings ids) (sort_strings rows)) _ later in
          (sort_strings-Perm ids rows).0 (
            compare_ids-eq 0 (sort_strings ids) (sort_strings rows) ((==_iff n m).0 counted)
              compared),
      λ d.
          let same : sort_strings ids ≡ sort_strings rows = (sort_strings-Perm ids rows).1 d in
          if_else (not (n == m)) _ _ (ap not ((==_iff n m).1 (ap length same)))
          ∙ ap (λ e. then_find e (find_rows r.metrics c.metrics))
              (ap (λ l. compare_ids 0 l (sort_strings rows)) same
                ∙ compare_ids_self 0 (sort_strings rows))
          ∙ find_rows-none r.metrics c.metrics
              (permuted_ids c.metrics (Permᴰ.symm d) (own_ids c.metrics)),
    )
