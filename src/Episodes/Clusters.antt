-- ===== src/Episodes/Clusters.antt =====
-- Fights described without a window: the deaths are cut where two that follow each other lie more than
-- 30 seconds apart, and each piece with at least two accounts is a fight.
use dota2_ob.Prelude.{
  ◌≡◌, refl, sym, ap, ◌∙◌, inl, inr, Bool-cases, String, Bool, true, false, List, [], ◌∷◌, ◌++◌,
  append-nil, append_assoc, map, not, leb, length, insert, if◌then◌else◌, if_first, if_else,
}
use dota2_ob.Prelude.Int.{ℤ, pos}
use dota2_ob.Prelude.Decimal.{format_uint}
use dota2_ob.Clock.{FloatOps}
use dota2_ob.Episodes.Types.{Episode, FightWindow}
use dota2_ob.Episodes.Window.{◌<>◌, keys_of, fight_episode, far_apart, opened, extended}

pub record Death (N : Type 0) : Type 0 where
  pub account : String
  pub second : N
  pub seq : ℤ

-- A piece has a first death.
pub record Cluster (N : Type 0) : Type 0 where
  pub first : Death N
  pub later : List (Death N)

unfoldable pub last_death : {N : Type 0} → Death N → List (Death N) → Death N
last_death d [] = d
last_death d (e ∷ es) = last_death e es

unfoldable pub accounts_of :
    {N : Type 0} → List (Death N) → List (String × Bool) → List (String × Bool)
accounts_of [] m = m
accounts_of (d ∷ ds) m = accounts_of ds (insert d.account true m)

abbrev pub seq_of : {N : Type 0} → Death N → ℤ
seq_of d = d.seq

module _ {N : Type 0} (f : FloatOps N) where
  -- More than 30 seconds from one second to a later one.
  abbrev pub lie_apart : N → N → Bool
  lie_apart earlier later = f.lt (f.of_int (pos 30)) (f.sub later earlier)

  -- A piece in front of the others: they stay apart if its last death is far from their first.
  unfoldable pub join : Cluster N → List (Cluster N) → List (Cluster N)
  join c [] = c ∷ []
  join c (d ∷ ds) =
      if lie_apart (last_death c.first c.later).second d.first.second
      then c ∷ d ∷ ds
      else record c { later = c.later ++ d.first ∷ d.later } ∷ ds

  unfoldable pub clusters : List (Death N) → List (Cluster N)
  clusters [] = []
  clusters (d ∷ ds) = join (record { first = d; later = [] }) (clusters ds)

  -- The window that has seen a piece.
  unfoldable pub window_of : Cluster N → FightWindow N
  window_of c = record {
    is_open = true;
    start = c.first.second;
    last = (last_death c.first c.later).second;
    accounts = accounts_of c.later ((c.first.account, true) ∷ []);
    seqs = c.first.seq ∷ map seq_of c.later;
  }

  -- The fight of a piece: from its first death to a second after its last, with its accounts and the
  -- numbers of its facts.
  abbrev pub fight_of : Cluster N → Episode N
  fight_of c =
      let accounts : List String = keys_of (accounts_of c.later ((c.first.account, true) ∷ [])) in
      record {
        id = "";
        match_id = "";
        kind = "fight_interval";
        start_game_second = c.first.second;
        end_game_second = f.add (last_death c.first c.later).second (f.of_int (pos 1));
        participants = accounts;
        account_id = "";
        region = "";
        detail = "death_cluster_" <> format_uint (length accounts);
        evidence_ids = c.first.seq ∷ map seq_of c.later;
        rule_version = "";
        missing_inputs = [];
        exclusions = [];
        confidence = pos 10;
      }

  -- The fights of the pieces, in their order.
  unfoldable pub fights_of : List (Cluster N) → List (Episode N)
  fights_of [] = []
  fights_of (c ∷ cs) =
      if leb 2 (length (window_of c).accounts) then fight_of c ∷ fights_of cs else fights_of cs

  -- What close adds.
  unfoldable pub closing : FightWindow N → List (Episode N)
  closing w =
      if not w.is_open then [] else if leb 2 (length w.accounts) then fight_episode f w ∷ [] else []

  unfoldable pub window_after : Death N → FightWindow N → FightWindow N
  window_after d w =
      if not w.is_open
      then opened f d.account d.second d.seq
      else if far_apart f w.last d.second
      then opened f d.account d.second d.seq
      else extended f d.account d.second d.seq w

  -- What a death makes the window add.
  unfoldable pub out_of : Death N → FightWindow N → List (Episode N)
  unfolding closing
  out_of d w = if not w.is_open then [] else if far_apart f w.last d.second then closing w else []

  -- What the window adds while it is fed with the deaths, and closed at the end.
  unfoldable pub feed : List (Death N) → FightWindow N → List (Episode N)
  unfolding out_of window_after closing
  feed [] w = closing w
  feed (d ∷ ds) w = out_of d w ++ feed ds (window_after d w)

  last_death-append : (d e : Death N) (ds : List (Death N)) → last_death d (ds ++ e ∷ []) ≡ e
  unfolding last_death
  last_death-append d e [] = refl
  last_death-append d e (x ∷ ds) = last_death-append x e ds

  accounts_of-append :
      (e : Death N) (ds : List (Death N)) (m : List (String × Bool))
      → accounts_of (ds ++ e ∷ []) m ≡ insert e.account true (accounts_of ds m)
  unfolding accounts_of
  accounts_of-append e [] m = refl
  accounts_of-append e (d ∷ ds) m = accounts_of-append e ds (insert d.account true m)

  seqs-append :
      (e : Death N) (ds : List (Death N)) → map seq_of (ds ++ e ∷ []) ≡ map seq_of ds ++ e.seq ∷ []
  seqs-append e [] = refl
  seqs-append e (d ∷ ds) = ap (λ t. d.seq ∷ t) (seqs-append e ds)

  grown : Cluster N → Death N → Cluster N
  grown c d = record c { later = c.later ++ d ∷ [] }

  extended-window_of :
      (c : Cluster N) (d : Death N)
      → extended f d.account d.second d.seq (window_of c) ≡ window_of (grown c d)
  unfolding window_of grown
  extended-window_of c d = rw (
    last_death-append c.first d c.later,
    accounts_of-append d c.later ((c.first.account, true) ∷ []),
    seqs-append d c.later,
  )

  join-join :
      (c : Cluster N) (d : Death N) (cs : List (Cluster N))
      → join c (join (record { first = d; later = [] }) cs) ≡ (
          if lie_apart (last_death c.first c.later).second d.second
          then c ∷ join (record { first = d; later = [] }) cs
          else join (grown c d) cs)
  unfolding join grown last_death
  join-join c d [] = refl
  join-join c d (e ∷ es) = elim (Bool-cases (lie_apart d.second e.first.second)) [
    | inl far ↦ rw (last_death-append c.first d c.later, far)
    | inr near ↦ rw (
      last_death-append c.first d c.later,
      near,
      append_assoc c.later (d ∷ []) (e.first ∷ e.later),
    )
  ]

  fights_of-cons :
      (c : Cluster N) (cs : List (Cluster N))
      → fights_of (c ∷ cs) ≡ closing (window_of c) ++ fights_of cs
  unfolding fights_of closing window_of
  fights_of-cons c cs = of_test (leb 2 (length (window_of c).accounts))
    where
      of_test :
          (t : Bool)
          → (if t then fight_of c ∷ fights_of cs else fights_of cs)
            ≡ (if t then fight_episode f (window_of c) ∷ [] else []) ++ fights_of cs
      of_test true = refl
      of_test false = refl

  single : Death N → Cluster N
  single d = record { first = d; later = [] }

  fed_apart :
      (ds : List (Death N)) (c : Cluster N) (d : Death N)
      → lie_apart (last_death c.first c.later).second d.second ≡ true
      → feed (d ∷ ds) (window_of c) ≡ closing (window_of c) ++ feed ds (window_of (single d))
  unfolding feed out_of window_after window_of single last_death accounts_of
  fed_apart ds c d far = rw far

  fed_near :
      (ds : List (Death N)) (c : Cluster N) (d : Death N)
      → lie_apart (last_death c.first c.later).second d.second ≡ false
      → feed (d ∷ ds) (window_of c) ≡ feed ds (window_of (grown c d))
  unfolding feed out_of window_after window_of
  fed_near ds c d near = rw near (ap (feed ds) (extended-window_of c d))

  feed-window_of :
      (ds : List (Death N)) (c : Cluster N)
      → feed ds (window_of c) ≡ fights_of (join c (clusters ds))
  unfolding feed join clusters single fights_of
  feed-window_of [] c = sym (fights_of-cons c [] ∙ append-nil (closing (window_of c)))
  feed-window_of (d ∷ ds) c =
      let rest : List (Cluster N) = clusters ds in
      let far : Bool = lie_apart (last_death c.first c.later).second d.second in
      elim (Bool-cases far) [
        | inl apart ↦
            fed_apart ds c d apart
            ∙ ap (λ es. closing (window_of c) ++ es) (feed-window_of ds (single d))
            ∙ sym (fights_of-cons c (join (single d) rest))
            ∙ ap fights_of (sym (join-join c d rest ∙ if_first far _ _ apart))
        | inr near ↦
            fed_near ds c d near
            ∙ feed-window_of ds (grown c d)
            ∙ ap fights_of (sym (join-join c d rest ∙ if_else far _ _ near))
      ]

  -- A window that is not open adds the fights of the pieces.
  pub feed-clusters :
      (ds : List (Death N)) (w : FightWindow N)
      → w.is_open ≡ false
      → feed ds w ≡ fights_of (clusters ds)
  unfolding feed clusters closing out_of window_after fights_of window_of single last_death
      accounts_of
  feed-clusters [] w e = rw e
  feed-clusters (d ∷ ds) w e = rw e (feed-window_of ds (single d))
