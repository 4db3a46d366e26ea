-- ===== src/Session/Restart.antt =====
-- A restart after a crash: the journal's whole lines are kept, a torn one is cut off.
use dota2_ob.Prelude.{
  ℕ, ◌+◌, ◌%◌, ◌≡◌, refl, ap, ◌∙◌, String, true, false, Option, none, some, List, [], ◌∷◌, ◌++◌,
  arith, All, length, length-append, take, take-append, is_empty,
}
use dota2_ob.Prelude.Time.{u64_mod}
use dota2_ob.Session.{Bytes, newline, Codec}
use dota2_ob.Session.Lines.{IsLine, unlines, split-unlines, committed-unlines}
use dota2_ob.Session.Recovery.{
  committed, split, check_lines, checked, recover_raw_file, recovered, read,
  validate_persisted_record, cut,
}

module _ {J : Type 0} (codec : Codec J) (id : String) where
  -- Lines that are valid records with the sequence numbers after `n`.
  abbrev pub ValidFrom : ℕ → List Bytes → Type 0
  ValidFrom n [] = Unit
  ValidFrom n (line ∷ lines) =
      (is_empty line ≡ false)
      × IsLine line
      × (validate_persisted_record codec line id ((n + 1) % u64_mod) ≡ true)
      × ValidFrom ((n + 1) % u64_mod) lines

  -- The sequence number after as many records.
  abbrev pub advance : ℕ → List Bytes → ℕ
  advance n [] = n
  advance n (line ∷ lines) = advance ((n + 1) % u64_mod) lines

  ValidFrom-IsLine : (n : ℕ) (lines : List Bytes) → ValidFrom n lines → All IsLine lines
  ValidFrom-IsLine n [] h = tt
  ValidFrom-IsLine n (line ∷ lines) h = (h.1, ValidFrom-IsLine ((n + 1) % u64_mod) lines h.3)

  check_lines-ValidFrom :
      (n : ℕ) (lines : List Bytes)
      → ValidFrom n lines
      → check_lines codec id n (lines ++ [] ∷ []) ≡ checked (advance n lines)
  unfolding check_lines
  check_lines-ValidFrom n [] h = refl
  check_lines-ValidFrom n (line ∷ lines) h =
      rw (h.0, h.2) (check_lines-ValidFrom ((n + 1) % u64_mod) lines h.3)

  abbrev pub cut_at : ℕ → Bytes → Option ℕ
  cut_at n [] = none
  cut_at n (t ∷ ts) = some n

  whole_lines :
      (lines : List Bytes) (tail : Bytes)
      → ValidFrom 0 lines
      → IsLine tail
      → check_lines codec id 0
          (split newline (take (committed (unlines lines ++ tail)) (unlines lines ++ tail)))
        ≡ checked (advance 0 lines)
  whole_lines lines tail valid torn = rw (committed-unlines lines tail torn) (
      rw (take-append (unlines lines) tail) (
        rw (split-unlines lines (ValidFrom-IsLine 0 lines valid))
          (check_lines-ValidFrom 0 lines valid)))

  cut_tail :
      (n : ℕ) (lines : List Bytes) (tail : Bytes)
      → IsLine tail
      → cut (unlines lines ++ tail) true (checked n)
        ≡ recovered n (cut_at (length (unlines lines)) tail)
  cut_tail n lines [] torn =
      rw (committed-unlines lines [] torn) (ground (arith, length-append (unlines lines) []))
  cut_tail n lines (t ∷ ts) torn =
      rw (committed-unlines lines (t ∷ ts) torn)
        (ground (arith, length-append (unlines lines) (t ∷ ts)))

  -- Bytes that hold valid records with consecutive sequence numbers from 1, each on its line, and
  -- a rest without a newline are recovered: the sequence goes on after the last whole record, and
  -- the file is cut to the whole records exactly if there is a rest.
  pub recover-unlines :
      (lines : List Bytes) (tail : Bytes)
      → ValidFrom 0 lines
      → IsLine tail
      → recover_raw_file codec id (read (unlines lines ++ tail)) true
        ≡ recovered (advance 0 lines) (cut_at (length (unlines lines)) tail)
  unfolding recover_raw_file
  recover-unlines lines tail valid torn =
      ap (cut (unlines lines ++ tail) true) (whole_lines lines tail valid torn)
      ∙ cut_tail (advance 0 lines) lines tail torn
