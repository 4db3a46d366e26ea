-- ===== src/Phase/Windows.antt =====
-- The per-second maps of the phase engine, and the loops over a window of seconds.
use dota2_ob.Prelude.{
  ℕ, zero, suc, ◌+◌, String, Bool, true, false, List, [], ◌∷◌, if◌then◌else◌, length, is_empty,
  str_eq,
}
use dota2_ob.Prelude.Int.{ℤ, pos, ◌+ℤ◌, eqb_ℤ}

-- map[int][]string
abbrev pub Seconds : Type 0 → Type 0
Seconds A = ℤ → List A

unfoldable pub put_at : {A : Type 0} → ℤ → List A → Seconds A → Seconds A
put_at s v m t = if eqb_ℤ t s then v else m t

unfoldable pub contains : String → List String → Bool
contains a [] = false
contains a (b ∷ bs) = let rest = contains a bs in if str_eq b a then true else rest

-- m[a] = true, on a map that is used as a set
unfoldable pub add_key : String → List String → List String
unfolding contains
add_key a keys = if contains a keys then keys else a ∷ keys

-- The sum of len(m[t]) for `n` seconds from `t`.
unfoldable pub window_total : Seconds String → ℤ → ℕ → ℕ
unfolding ◌+ℤ◌
window_total m t zero = 0
window_total m t (suc n) = length (m t) + window_total m (t +ℤ pos 1) n

unfoldable pub add_keys : List String → List String → List String
unfolding add_key
add_keys [] keys = keys
add_keys (a ∷ bs) keys = add_keys bs (add_key a keys)

-- The keys of the sets of `n` seconds from `t`.
unfoldable pub window_set : Seconds String → ℤ → ℕ → List String → List String
unfolding add_keys ◌+ℤ◌
window_set m t zero keys = keys
window_set m t (suc n) keys = window_set m (t +ℤ pos 1) n (add_keys (m t) keys)

-- Whether one of `n` seconds from `t` has an entry.
unfoldable pub any_in_window : Seconds String → ℤ → ℕ → Bool
unfolding ◌+ℤ◌
any_in_window m t zero = false
any_in_window m t (suc n) =
    let rest = any_in_window m (t +ℤ pos 1) n in if is_empty (m t) then rest else true
