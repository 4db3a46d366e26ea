-- ===== src/Phase/PerSecond.antt =====
-- internal/replay/phase/phase.go, PerSecond: the phase of every eligible second, by the intervals.
-- A second that no interval covers is "unavailable" in the source, and `none` here.
use dota2_ob.Prelude.{
  ℕ, zero, suc, ◌+◌, ◌<◌, ◌≡◌, ◌==◌, ◌&&◌, refl, sym, ap, ◌∙◌, inl, inr, Bool-cases, true, false,
  Option, none, some, List, [], ◌∷◌, leb, ltb, length, arith, if◌then◌else◌, if_first,
}
use dota2_ob.Prelude.Int.{
  ℤ, pos, ◌+ℤ◌, ◌-ℤ◌, ◌≤ℤ◌, ◌<ℤ◌, ltb_ℤ, leb_ℤ, int_laws, eq_of_parts, pos_part,
}
use dota2_ob.Phase.{Phase, Interval, Output}

-- make([]Phase, n), all of it "unavailable"
abbrev pub slots : ℕ → List (Option Phase)
slots zero = []
slots (suc n) = none ∷ slots n

-- out[i] = v, for an `i` in range
abbrev pub set_at : ℕ → Option Phase → List (Option Phase) → List (Option Phase)
set_at i v [] = []
set_at zero v (x ∷ out) = v ∷ out
set_at (suc i) v (x ∷ out) = x ∷ set_at i v out

abbrev pub slot : ℕ → List (Option Phase) → Option (Option Phase)
slot i [] = none
slot zero (x ∷ out) = some x
slot (suc i) (x ∷ out) = slot i out

-- The inner loop: `n` seconds from `s`.
unfoldable pub put_range : ℕ → ℤ → Phase → List (Option Phase) → List (Option Phase)
unfolding ◌+ℤ◌
put_range zero s p out = out
put_range (suc n) s p out =
    put_range n (s +ℤ pos 1) p (if leb_ℤ (pos 0) s then set_at (pos_part s) (some p) out else out)

-- How often the inner loop runs: up to the end of the interval and of the eligible seconds.
abbrev pub rounds : {N : Type 0} → ℤ → Interval N → ℕ
rounds eligible iv = pos_part (
    (if ltb_ℤ iv.end_game_second eligible then iv.end_game_second else eligible)
    -ℤ iv.start_game_second)

unfoldable pub fill :
    {N : Type 0} → ℤ → List (Interval N) → List (Option Phase) → List (Option Phase)
unfolding put_range ◌-ℤ◌
fill eligible [] out = out
fill eligible (iv ∷ ivs) out =
    fill eligible ivs (put_range (rounds eligible iv) iv.start_game_second iv.global_phase out)

-- PerSecond; making a slice of a negative length panics.
unfoldable pub per_second : {N : Type 0} → Output N → Option (List (Option Phase))
unfolding fill
per_second o =
    if ltb_ℤ o.eligible_seconds (pos 0)
    then none
    else some (fill o.eligible_seconds o.intervals (slots (pos_part o.eligible_seconds)))

length-set_at :
    (i : ℕ) (v : Option Phase) (out : List (Option Phase)) → length (set_at i v out) ≡ length out
length-set_at i v [] = refl
length-set_at zero v (x ∷ out) = refl
length-set_at (suc i) v (x ∷ out) = ap suc (length-set_at i v out)

slot-set_at :
    (i j : ℕ) (v : Option Phase) (out : List (Option Phase))
    → slot i (set_at j v out) ≡ (if (i == j) && ltb i (length out) then some v else slot i out)
slot-set_at i j v [] = ground arith
slot-set_at zero zero v (x ∷ out) = ground arith
slot-set_at (suc i) zero v (x ∷ out) = ground arith
slot-set_at zero (suc j) v (x ∷ out) = ground arith
slot-set_at (suc i) (suc j) v (x ∷ out) = ground (arith, slot-set_at i j v out)

next_second : (k : ℕ) → pos k +ℤ pos 1 ≡ pos (suc k)
next_second k = eq_of_parts (pos k +ℤ pos 1) (pos (suc k)) (omega int_laws)

put_range-suc :
    (n k : ℕ) (p : Phase) (out : List (Option Phase))
    → put_range (suc n) (pos k) p out ≡ put_range n (pos (suc k)) p (set_at k (some p) out)
unfolding put_range
put_range-suc n k p out =
    ap (λ z. put_range n z p (if leb_ℤ (pos 0) (pos k) then set_at k (some p) out else out))
      (next_second k)
    ∙ ap (put_range n (pos (suc k)) p) (if_first (leb_ℤ (pos 0) (pos k)) _ _ (ground arith))

slot-put_range :
    (i n k : ℕ) (p : Phase) (out : List (Option Phase))
    → slot i (put_range n (pos k) p out)
      ≡ (if leb k i && ltb i (k + n) && ltb i (length out) then some (some p) else slot i out)
unfolding put_range
slot-put_range i zero k p out = ground arith
slot-put_range i (suc n) k p out =
    ap (slot i) (put_range-suc n k p out)
    ∙ ground (
      arith,
      slot-put_range i n (suc k) p (set_at k (some p) out),
      slot-set_at i k (some p) out,
      length-set_at k (some p) out,
    )

pub length-put_range :
    (n : ℕ) (s : ℤ) (p : Phase) (out : List (Option Phase))
    → length (put_range n s p out) ≡ length out
unfolding put_range
length-put_range zero s p out = refl
length-put_range (suc n) s p out = elim (Bool-cases (leb_ℤ (pos 0) s)) [
  | inl here ↦ rw here (
      length-put_range n (s +ℤ pos 1) p (set_at (pos_part s) (some p) out)
      ∙ length-set_at (pos_part s) (some p) out)
  | inr early ↦ rw early (length-put_range n (s +ℤ pos 1) p out)
]

pub length-slots : (n : ℕ) → length (slots n) ≡ n
length-slots zero = refl
length-slots (suc n) = ap suc (length-slots n)

as_pos : (s : ℤ) → pos 0 ≤ℤ s → pos (pos_part s) ≡ s
as_pos s h = eq_of_parts (pos (pos_part s)) s (ground arith)

module _ {N : Type 0} (eligible : ℤ) (i : ℕ) where
  abbrev pub written : Interval N → List (Option Phase) → List (Option Phase)
  written iv out = put_range (rounds eligible iv) iv.start_game_second iv.global_phase out

  pub outside :
      (iv : Interval N) (out : List (Option Phase))
      → pos 0 ≤ℤ iv.start_game_second
      → pos i <ℤ iv.start_game_second
      → slot i (written iv out) ≡ slot i out
  outside iv out h before =
      let k : ℕ = pos_part iv.start_game_second in
      let not_yet : leb k i ≡ false = ground arith in
      ap (λ z. slot i (put_range (rounds eligible iv) z iv.global_phase out))
        (sym (as_pos iv.start_game_second h))
      ∙ slot-put_range i (rounds eligible iv) k iv.global_phase out
      ∙ rw not_yet

  enough_rounds :
      (iv : Interval N)
      → pos 0 ≤ℤ iv.start_game_second
      → iv.start_game_second ≤ℤ pos i
      → pos i <ℤ iv.end_game_second
      → pos i <ℤ eligible
      → i < pos_part iv.start_game_second + rounds eligible iv
  enough_rounds iv h from to under = elim (Bool-cases (ltb_ℤ iv.end_game_second eligible)) [
    | inl short ↦ rw short (omega int_laws)
    | inr long ↦ rw long (omega int_laws)
  ]

  pub inside :
      (iv : Interval N) (out : List (Option Phase))
      → pos 0 ≤ℤ iv.start_game_second
      → iv.start_game_second ≤ℤ pos i
      → pos i <ℤ iv.end_game_second
      → pos i <ℤ eligible
      → i < length out
      → slot i (written iv out) ≡ some (some iv.global_phase)
  inside iv out h from to under room =
      let k : ℕ = pos_part iv.start_game_second in
      let reached : ltb i (k + rounds eligible iv) ≡ true =
        ground (arith, enough_rounds iv h from to under) in
      let started : leb k i ≡ true = ground arith in
      let fits : ltb i (length out) ≡ true = ground arith in
      ap (λ z. slot i (put_range (rounds eligible iv) z iv.global_phase out))
        (sym (as_pos iv.start_game_second h))
      ∙ slot-put_range i (rounds eligible iv) k iv.global_phase out
      ∙ rw (started, reached, fits)
