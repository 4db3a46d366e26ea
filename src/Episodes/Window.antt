-- ===== src/Episodes/Window.antt =====
-- The builder and the fight window of internal/replay/episodes/episodes.go.
use dota2_ob.Prelude.{
  ℕ, String, Bool, true, false, not, List, [], ◌∷◌, ◌++◌, leb, if◌then◌else◌, length, insert,
}
use dota2_ob.Prelude.Int.{ℤ, pos, ltb_ℤ}
use dota2_ob.Prelude.Sort.{sort_by, sort_strings, string_lt}
use dota2_ob.Prelude.Decimal.{format_uint, format_int}
use dota2_ob.Clock.{FloatOps}
use dota2_ob.Episodes.Types.{Episode, Builder, FightWindow, kind_fight, episode_rule_version}

infixr 65 ◌<>◌
abbrev pub ◌<>◌ : String → String → String
s <> t = Prim.Native.String.◌++◌ s t

unfoldable pub keys_of : List (String × Bool) → List String
keys_of [] = []
keys_of ((k, v) ∷ m) = k ∷ keys_of m

module _ {N : Type 0} (f : FloatOps N) where
  -- An episode as a literal of the source leaves it, the other fields zero.
  abbrev pub blank : String → N → N → Episode N
  blank kind start end_second = record {
    id = "";
    match_id = "";
    kind = kind;
    start_game_second = start;
    end_game_second = end_second;
    participants = [];
    account_id = "";
    region = "";
    detail = "";
    evidence_ids = [];
    rule_version = "";
    missing_inputs = [];
    exclusions = [];
    confidence = pos 10;
  }

  abbrev pub one_later : N → N
  one_later gs = f.add gs (f.of_int (pos 1))

  -- The episode that Add appends as number `n` of a match.
  unfoldable pub added : String → ℕ → Episode N → Episode N
  unfolding sort_strings sort_by format_uint format_int
  added match_id n e = record e {
    participants = sort_strings e.participants;
    evidence_ids = sort_by ltb_ℤ e.evidence_ids;
    id =
        match_id
        <> ":"
        <> e.kind
        <> ":"
        <> format_int (f.to_int e.start_game_second)
        <> ":"
        <> format_uint n;
    match_id = match_id;
    rule_version = episode_rule_version;
  }

  -- Add
  unfoldable pub add : Episode N → Builder N → Builder N
  unfolding added
  add e b = record b { episodes = b.episodes ++ added b.match_id (length b.episodes) e ∷ [] }

  abbrev pub earlier : Episode N → Episode N → Bool
  earlier x y =
      if not (f.eq x.start_game_second y.start_game_second)
      then f.lt x.start_game_second y.start_game_second
      else string_lt x.kind y.kind

  -- Episodes
  unfoldable pub episodes : Builder N → List (Episode N)
  unfolding sort_by
  episodes b = sort_by earlier b.episodes

  abbrev pub new_fight_window : FightWindow N
  new_fight_window = record {
    is_open = false;
    start = f.zero;
    last = f.zero;
    accounts = [];
    seqs = [];
  }

  abbrev pub fight_episode : FightWindow N → Episode N
  fight_episode w = record (blank kind_fight w.start (one_later w.last)) {
    participants = keys_of w.accounts;
    evidence_ids = w.seqs;
    detail = "death_cluster_" <> format_uint (length (keys_of w.accounts));
  }

  abbrev pub shut : FightWindow N → FightWindow N
  shut w = record w { is_open = false; accounts = []; seqs = [] }

  -- close
  unfoldable pub close : FightWindow N → Builder N → FightWindow N × Builder N
  unfolding add keys_of format_uint
  close w b =
      if not w.is_open
      then (w, b)
      else (shut w, if leb 2 (length w.accounts) then add (fight_episode w) b else b)

  -- A window with its first death.
  abbrev pub opened : String → N → ℤ → FightWindow N
  opened account gs seq = record {
    is_open = true;
    start = gs;
    last = gs;
    accounts = (account, true) ∷ [];
    seqs = seq ∷ [];
  }

  abbrev pub extended : String → N → ℤ → FightWindow N → FightWindow N
  extended account gs seq w = record w {
    accounts = insert account true w.accounts;
    seqs = w.seqs ++ seq ∷ [];
    last = gs;
  }

  -- gs - last > 30
  abbrev pub far_apart : N → N → Bool
  far_apart last gs = f.lt (f.of_int (pos 30)) (f.sub gs last)

  -- addDeath
  unfoldable pub add_death : String → N → ℤ → FightWindow N → Builder N → FightWindow N × Builder N
  unfolding close insert
  add_death account gs seq w b =
      if not w.is_open
      then (opened account gs seq, b)
      else if far_apart w.last gs
      then (opened account gs seq, (close w b).1)
      else (extended account gs seq w, b)
