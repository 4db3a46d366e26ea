-- ===== src/Closure/Rows.antt =====
-- What the loop of Validate accepts.
use mathlib.Core.Option.{none-ne-some}
use mathlib.Core.Bool.{false≢true}
use dota2_ob.Prelude.{
  ℕ, suc, ◌≡◌, refl, sym, ap, ◌⊎◌, inl, inr, String, Bool, true, false, Option, none, some, List,
  [], ◌∷◌, All, lookup, insert, lookup-insert, str_eq, arith, if◌then◌else◌, eq_iff, ◌++◌, ◌∙◌,
  codes, ==_iff, Bool-cases, ◌||◌,
}
use dota2_ob.Closure.{
  ClosureRow, ClosureError, has_prefix, is_compute_entry_point, resolved_error, row_error, is_seen,
  after_row, validate_rows,
}

abbrev pub IsNamed : String → Type 0
IsNamed s = str_eq s "" ≡ false

-- The entry points of published rows: a literal of the dispatcher, or the one Phase value.
abbrev pub IsDispatch : String → Type 0
IsDispatch ep =
    ((rest : List ℕ) × (codes ep ≡ codes "computeMetric:" ++ rest)) ⊎ (ep ≡ "phaseDurationValue")

has_prefix-split : (ps cs : List ℕ) → has_prefix ps cs ≡ true → (rest : List ℕ) × (cs ≡ ps ++ rest)
unfolding has_prefix
has_prefix-split [] cs h = (cs, refl)
has_prefix-split (p ∷ ps) [] h = absurd (false≢true h)
has_prefix-split (p ∷ ps) (c ∷ cs) h =
    let (rest, split) = has_prefix-split ps cs (ground arith) in
    let same : c ≡ p = ground arith in (rest, ap (λ k. k ∷ cs) same ∙ ap (λ ks. p ∷ ks) split)

has_prefix-append : (ps rest : List ℕ) → has_prefix ps (ps ++ rest) ≡ true
unfolding has_prefix
has_prefix-append [] rest = refl
has_prefix-append (p ∷ ps) rest = rw ((==_iff p p).1 refl) (has_prefix-append ps rest)

is_compute_entry_point-IsDispatch : (ep : String) → is_compute_entry_point ep ≡ true → IsDispatch ep
unfolding is_compute_entry_point
is_compute_entry_point-IsDispatch ep h =
    elim (Bool-cases (has_prefix (codes "computeMetric:") (codes ep))) [
      | inl literal ↦ inl (has_prefix-split (codes "computeMetric:") (codes ep) literal)
      | inr other ↦ inr ((eq_iff ep "phaseDurationValue").0 (ground arith))
    ]

IsDispatch-is_compute_entry_point : (ep : String) → IsDispatch ep → is_compute_entry_point ep ≡ true
unfolding is_compute_entry_point
IsDispatch-is_compute_entry_point ep (inl (rest, split)) =
    let literal : has_prefix (codes "computeMetric:") (codes ep) ≡ true =
      ap (has_prefix (codes "computeMetric:")) split
      ∙ has_prefix-append (codes "computeMetric:") rest in
    ap (λ b. b || str_eq ep "phaseDurationValue") literal
IsDispatch-is_compute_entry_point ep (inr phase) =
    let value : str_eq ep "phaseDurationValue" ≡ true = (eq_iff ep "phaseDurationValue").1 phase in
    ground arith

-- A row with all its fields, that is published with a concrete entry point or unavailable.
pub record IsValid (r : ClosureRow) : Type 0 where
  pub id : IsNamed r.metric_id
  pub evaluator : IsNamed r.evaluator_id
  pub entry : IsNamed r.entry_point
  pub capability : IsNamed r.capability_level
  pub report : IsNamed r.report_level
  pub sources : IsNamed r.accepted_source_fields
  pub publication : IsNamed r.publication_gate
  pub gate : IsNamed r.unavailable_gate
  pub state : ((r.resolved ≡ "published") × IsDispatch r.entry_point) ⊎ (r.resolved ≡ "unavailable")

-- No two rows have one id.
abbrev pub Distinct : List ClosureRow → Type 0
Distinct [] = Unit
Distinct (r ∷ rows) =
    All (λ (q : ClosureRow). str_eq r.metric_id q.metric_id ≡ false) rows × Distinct rows

row_error-IsValid : (i : ℕ) (r : ClosureRow) → row_error i r ≡ none → IsValid r
unfolding row_error
row_error-IsValid i r h = record {
  id = ground arith;
  evaluator = ground arith;
  entry = ground arith;
  capability = ground arith;
  report = ground arith;
  sources = ground arith;
  publication = ground arith;
  gate = ground arith;
  state =
      let states : ((r.resolved ≡ "published") × (is_compute_entry_point r.entry_point ≡ true))
          ⊎ (r.resolved ≡ "unavailable") =
        ground (arith, eq_iff r.resolved "published", eq_iff r.resolved "unavailable") in
      elim states [
        | inl published ↦
            inl (published.0, is_compute_entry_point-IsDispatch r.entry_point published.1)
        | inr unavailable ↦ inr unavailable
      ];
}

resolved_error-none :
    (r : ClosureRow)
    → IsNamed r.unavailable_gate
    → ((r.resolved ≡ "published") × IsDispatch r.entry_point) ⊎ (r.resolved ≡ "unavailable")
    → resolved_error r ≡ none
resolved_error-none r gate (inl (published, dispatch)) =
    let compute : is_compute_entry_point r.entry_point ≡ true =
      IsDispatch-is_compute_entry_point r.entry_point dispatch in
    let now : str_eq r.resolved "published" ≡ true = ap (λ s. str_eq s "published") published in
    rw (now, gate, compute)
resolved_error-none r gate (inr unavailable) =
    let not_published : str_eq r.resolved "published" ≡ false =
      ap (λ s. str_eq s "published") unavailable in
    let now : str_eq r.resolved "unavailable" ≡ true =
      ap (λ s. str_eq s "unavailable") unavailable in
    rw (not_published, now, gate)

IsValid-row_error : (i : ℕ) (r : ClosureRow) → IsValid r → row_error i r ≡ none
unfolding row_error
IsValid-row_error i r v =
    rw (v.id, v.evaluator, v.entry, v.capability, v.report, v.sources, v.publication)
      (resolved_error-none r v.gate v.state)

-- The rows whose ids have not been seen.
abbrev pub Unseen : List (String × Bool) → List ClosureRow → Type 0
Unseen seen rows = All (λ (q : ClosureRow). is_seen q.metric_id seen ≡ false) rows

pub Unseen-nil : (rows : List ClosureRow) → Unseen [] rows
unfolding lookup
Unseen-nil [] = tt
Unseen-nil (q ∷ rows) = (refl, Unseen-nil rows)

is_seen-insert :
    (id key : String) (seen : List (String × Bool))
    → is_seen key (insert id true seen) ≡ (if str_eq id key then true else is_seen key seen)
is_seen-insert id key seen = ground (arith, lookup-insert id key true seen)

Unseen-insert :
    (id : String) (seen : List (String × Bool)) (rows : List ClosureRow)
    → Unseen (insert id true seen) rows
    → All (λ (q : ClosureRow). str_eq id q.metric_id ≡ false) rows × Unseen seen rows
Unseen-insert id seen [] h = (tt, tt)
Unseen-insert id seen (q ∷ rows) h =
    let rest : All (λ (q : ClosureRow). str_eq id q.metric_id ≡ false) rows × Unseen seen rows =
      Unseen-insert id seen rows h.1 in
    let both : (str_eq id q.metric_id ≡ false) × (is_seen q.metric_id seen ≡ false) =
      ground (arith, is_seen-insert id q.metric_id seen, h.0) in
    ((both.0, rest.0), (both.1, rest.1))

insert-Unseen :
    (id : String) (seen : List (String × Bool)) (rows : List ClosureRow)
    → All (λ (q : ClosureRow). str_eq id q.metric_id ≡ false) rows
    → Unseen seen rows
    → Unseen (insert id true seen) rows
insert-Unseen id seen [] h k = tt
insert-Unseen id seen (q ∷ rows) h k = (
  ground (arith, is_seen-insert id q.metric_id seen, h.0, k.0),
  insert-Unseen id seen rows h.1 k.1,
)

after_row-none :
    (e : Option ClosureError) (seen : Bool) (id : String) (rest : Option ClosureError)
    → after_row e seen id rest ≡ none
    → (e ≡ none) × (seen ≡ false) × (rest ≡ none)
after_row-none (some e) seen id rest h = absurd (none-ne-some _ (sym h))
after_row-none none true id rest h = absurd (none-ne-some _ (sym h))
after_row-none none false id rest h = (refl, refl, h)

-- The rows are accepted exactly if each is valid, their ids are distinct, and none was seen before.
pub validate_rows_sound :
    (i : ℕ) (seen : List (String × Bool)) (rows : List ClosureRow)
    → validate_rows i seen rows ≡ none
    → All IsValid rows × Distinct rows × Unseen seen rows
unfolding validate_rows
validate_rows_sound i seen [] h = (tt, tt, tt)
validate_rows_sound i seen (r ∷ rows) h =
    let (fine, new, later) =
      after_row-none (row_error i r) (is_seen r.metric_id seen) r.metric_id
        (validate_rows (suc i) (insert r.metric_id true seen) rows) h in
    let (valid, distinct, unseen) =
      validate_rows_sound (suc i) (insert r.metric_id true seen) rows later in
    let (others, before) = Unseen-insert r.metric_id seen rows unseen in
    ((row_error-IsValid i r fine, valid), (others, distinct), (new, before))

pub validate_rows_complete :
    (i : ℕ) (seen : List (String × Bool)) (rows : List ClosureRow)
    → All IsValid rows
    → Distinct rows
    → Unseen seen rows
    → validate_rows i seen rows ≡ none
unfolding validate_rows
validate_rows_complete i seen [] v d u = refl
validate_rows_complete i seen (r ∷ rows) v d u =
    rw (IsValid-row_error i r v.0, u.0)
      (validate_rows_complete (suc i) (insert r.metric_id true seen) rows v.1 d.1
        (insert-Unseen r.metric_id seen rows d.0 u.1))
