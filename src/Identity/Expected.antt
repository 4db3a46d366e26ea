-- ===== src/Identity/Expected.antt =====
-- The manifest's participants by account id.
use mathlib.Core.List.{Memᴰ}
use mathlib.Core.Option.{none-ne-some, some-injective}
use dota2_ob.Prelude.{
  ◌≡◌, sym, ap, ◌∙◌, ◌⊎◌, inl, inr, Bool-cases, String, some, List, [], ◌∷◌, lookup, insert,
  lookup-insert, str_eq, eq_iff, if_first, if_else,
}
use dota2_ob.Archive.{ExpectedPlayer}
use dota2_ob.Identity.Participants.{expected_by_account}

-- An entry of the map is one of the list that has its key, or was there before.
from_list :
    (k : String) (e : ExpectedPlayer) (ps : List ExpectedPlayer)
    (m : List (String × ExpectedPlayer))
    → lookup k (expected_by_account ps m) ≡ some e
    → (Memᴰ e ps × (e.account_id ≡ k)) ⊎ (lookup k m ≡ some e)
unfolding expected_by_account
from_list k e [] m h = inr h
from_list k e (p ∷ ps) m h = elim (from_list k e ps (insert p.account_id p m) h) [
  | inl found ↦ inl (Memᴰ.tail found.0, found.1)
  | inr before ↦ elim (Bool-cases (str_eq p.account_id k)) [
    | inl same ↦
        let here : p ≡ e = some-injective p e (
          sym (lookup-insert p.account_id k p m ∙ if_first (str_eq p.account_id k) _ _ same)
          ∙ before) in
        inl (
          Memᴰ.head (sym here),
          ap (λ (q : ExpectedPlayer). q.account_id) (sym here) ∙ (eq_iff p.account_id k).0 same,
        )
    | inr other ↦ inr (
        sym (lookup-insert p.account_id k p m ∙ if_else (str_eq p.account_id k) _ _ other) ∙ before)
  ]
]

-- Every player that the map gives for an account stands in the manifest with that account.
pub expected_by_account_sound :
    (k : String) (e : ExpectedPlayer) (ps : List ExpectedPlayer)
    → lookup k (expected_by_account ps []) ≡ some e
    → Memᴰ e ps × (e.account_id ≡ k)
unfolding lookup
expected_by_account_sound k e ps h = elim (from_list k e ps [] h) [
  | inl found ↦ found
  | inr before ↦ absurd (none-ne-some e before)
]
