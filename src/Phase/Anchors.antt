-- ===== src/Phase/Anchors.antt =====
-- internal/replay/phase/phase.go: the lazily computed anchor of each account, a median position.
use dota2_ob.Prelude.{
  ℕ, zero, suc, ◌/◌, String, Bool, true, false, not, ◌&&◌, ◌||◌, Option, none, some, List, [], ◌∷◌,
  map, leb, if◌then◌else◌, length, lookup, insert,
}
use dota2_ob.Prelude.Int.{ℤ, pos, ltb_ℤ, leb_ℤ}
use dota2_ob.Phase.{PosSample, Engine, second_or_zero}

module _ {N : Type 0} (num_lt : N → N → Bool) where
  -- sort.Float64s
  insert_sorted : N → List N → List N
  insert_sorted a [] = a ∷ []
  insert_sorted a (b ∷ bs) = if num_lt b a then b ∷ insert_sorted a bs else a ∷ b ∷ bs

  sort_floats : List N → List N
  unfolding insert_sorted
  sort_floats [] = []
  sort_floats (a ∷ bs) = insert_sorted a (sort_floats bs)

  in_range : ℤ → ℤ → List (ℤ × PosSample N) → List (PosSample N)
  in_range lo hi [] = []
  in_range lo hi ((s, p) ∷ samples) =
      let rest = in_range lo hi samples in if ltb_ℤ s lo || ltb_ℤ hi s then rest else p ∷ rest

  get_elem? : ℕ → List N → Option N
  get_elem? i [] = none
  get_elem? zero (a ∷ bs) = some a
  get_elem? (suc i) (a ∷ bs) = get_elem? i bs

  abbrev sample_of : Option N → Option N → Option (PosSample N)
  sample_of (some x) (some y) = some (record { x = x; y = y })
  sample_of _ _ = none

  -- The medians of the coordinates; nil if no sample is in range.
  unfoldable pub median_pos : List (ℤ × PosSample N) → ℤ → ℤ → Option (PosSample N)
  unfolding sort_floats in_range get_elem?
  median_pos m lo hi =
      let ps = in_range lo hi m in
      let mid = length ps / 2 in
      sample_of (get_elem? mid (sort_floats (map (λ p. p.x) ps)))
        (get_elem? mid (sort_floats (map (λ p. p.y) ps)))

  abbrev pub has_anchor : Option (Option (PosSample N)) → Bool
  has_anchor (some (some p)) = true
  has_anchor _ = false

  -- One round of the loop over e.pos.
  abbrev pub anchor_account : String → List (ℤ × PosSample N) → Engine N → Engine N
  anchor_account account m e =
      let first = second_or_zero (lookup account e.anchor_second) in
      if not (has_anchor (lookup account e.anchors))
        && leb_ℤ (pos 0) first
        && leb_ℤ first (pos 180)
        && leb 45 (length m)
      then record e { anchors = insert account (median_pos m (pos 0) (pos 180)) e.anchors }
      else e

  unfoldable pub compute_anchors : List (String × List (ℤ × PosSample N)) → Engine N → Engine N
  compute_anchors [] e = e
  compute_anchors ((account, m) ∷ ms) e = compute_anchors ms (anchor_account account m e)
