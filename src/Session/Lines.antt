-- ===== src/Session/Lines.antt =====
-- Bytes as lines: splitting them, and finding the last whole one.
use dota2_ob.Prelude.{
  ℕ, suc, ◌+◌, ◌≡◌, refl, sym, ap, ◌∙◌, inl, inr, Option-cases, false, none, some, List, [], ◌∷◌,
  ◌++◌, append-nil, arith, All, length, length-append, ◌==◌,
}
use dota2_ob.Session.{Bytes, newline}
use dota2_ob.Session.Recovery.{last_index, split, last_byte, committed, committed_of, after_last}

-- No byte of a line is a newline.
abbrev pub IsLine : Bytes → Type 0
IsLine line = All (λ b. (b == newline) ≡ false) line

-- Lines, each with its newline.
unfoldable pub unlines : List Bytes → Bytes
unlines [] = []
unlines (line ∷ lines) = line ++ (newline ∷ unlines lines)

pub split-line :
    (line rest : Bytes)
    → IsLine line
    → split newline (line ++ (newline ∷ rest)) ≡ line ∷ split newline rest
unfolding split
split-line [] rest h = refl
split-line (x ∷ line) rest h = rw (h.0, split-line line rest h.1)

pub split-unlines :
    (lines : List Bytes) → All IsLine lines → split newline (unlines lines) ≡ lines ++ [] ∷ []
unfolding unlines split
split-unlines [] h = refl
split-unlines (line ∷ lines) h =
    split-line line (unlines lines) h.0 ∙ ap (λ ls. line ∷ ls) (split-unlines lines h.1)

last_byte-append :
    (xs : Bytes) (y : ℕ) (ys : Bytes) → last_byte (xs ++ (y ∷ ys)) ≡ last_byte (y ∷ ys)
unfolding last_byte
last_byte-append [] y ys = refl
last_byte-append (x ∷ []) y ys = refl
last_byte-append (x ∷ x' ∷ xs) y ys = last_byte-append (x' ∷ xs) y ys

last_byte-IsLine :
    (t : ℕ) (ts : Bytes)
    → IsLine (t ∷ ts)
    → (c : ℕ) × (last_byte (t ∷ ts) ≡ some c) × ((c == newline) ≡ false)
unfolding last_byte
last_byte-IsLine t [] h = (t, refl, h.0)
last_byte-IsLine t (t' ∷ ts) h = last_byte-IsLine t' ts h.1

last_index-IsLine : (line : Bytes) → IsLine line → last_index newline line ≡ none
unfolding last_index
last_index-IsLine [] h = refl
last_index-IsLine (x ∷ line) h = rw (last_index-IsLine line h.1) (rw h.0)

last_index-append_none :
    (xs ys : Bytes)
    → last_index newline ys ≡ none
    → last_index newline (xs ++ ys) ≡ last_index newline xs
unfolding last_index
last_index-append_none [] ys h = h
last_index-append_none (x ∷ xs) ys h = rw (last_index-append_none xs ys h)

last_index-append_some :
    (xs ys : Bytes) (i : ℕ)
    → last_index newline ys ≡ some i
    → last_index newline (xs ++ ys) ≡ some (length xs + i)
unfolding last_index
last_index-append_some [] ys i h = h ∙ ap some (omega arith)
last_index-append_some (x ∷ xs) ys i h =
    rw (last_index-append_some xs ys i h) (ap some (omega arith))

after_last-unlines :
    (lines : List Bytes) → after_last (last_index newline (unlines lines)) ≡ length (unlines lines)
unfolding unlines last_index
after_last-unlines [] = refl
after_last-unlines (line ∷ lines) = elim (Option-cases (last_index newline (unlines lines))) [
  | inl nowhere ↦
      let at : last_index newline (line ++ (newline ∷ unlines lines)) ≡ some (length line + 0) =
        last_index-append_some line (newline ∷ unlines lines) 0 (rw (nowhere, last_index) refl) in
      let none_left : 0 ≡ length (unlines lines) =
        ap after_last (sym nowhere) ∙ after_last-unlines lines in
      rw at (omega (arith, length-append line (newline ∷ unlines lines)))
  | inr (i, e) ↦
      let at : last_index newline (line ++ (newline ∷ unlines lines)) ≡ some (length line + suc i) =
        last_index-append_some line (newline ∷ unlines lines) (suc i) (rw (e, last_index) refl) in
      let left : i + 1 ≡ length (unlines lines) =
        ap after_last (sym e) ∙ after_last-unlines lines in
      rw at (omega (arith, length-append line (newline ∷ unlines lines)))
]

last_byte-unlines :
    (line : Bytes) (lines : List Bytes) → last_byte (unlines (line ∷ lines)) ≡ some newline
unfolding unlines last_byte
last_byte-unlines line [] = last_byte-append line newline []
last_byte-unlines line (line' ∷ lines) =
    last_byte-append line newline (unlines (line' ∷ lines))
    ∙ last_byte-append (newline ∷ line') newline (unlines lines)
    ∙ sym (last_byte-append line' newline (unlines lines))
    ∙ last_byte-unlines line' lines

-- Of whole lines and a rest without a newline, the bytes that recovery counts as committed are the
-- whole lines.
pub committed-unlines :
    (lines : List Bytes) (tail : Bytes)
    → IsLine tail
    → committed (unlines lines ++ tail) ≡ length (unlines lines)
unfolding committed unlines
committed-unlines [] [] h = refl
committed-unlines (line ∷ lines) [] h =
    rw (append-nil (unlines (line ∷ lines)))
      (ap (committed_of (unlines (line ∷ lines))) (last_byte-unlines line lines))
committed-unlines lines (t ∷ ts) h =
    let (c, e, other) = last_byte-IsLine t ts h in
    let torn : last_byte (unlines lines ++ (t ∷ ts)) ≡ some c =
      last_byte-append (unlines lines) t ts ∙ e in
    let at : last_index newline (unlines lines ++ (t ∷ ts)) ≡ last_index newline (unlines lines) =
      last_index-append_none (unlines lines) (t ∷ ts) (last_index-IsLine (t ∷ ts) h) in
    ap (committed_of (unlines lines ++ (t ∷ ts))) torn
    ∙ rw other (ap after_last at ∙ after_last-unlines lines)
