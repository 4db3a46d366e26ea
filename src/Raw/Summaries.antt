-- ===== src/Raw/Summaries.antt =====
-- internal/replay/raw/summary.go: the first pass over a raw stream. The map of teams is an
-- association list, in the order of the first writes. A nil pointer that the code follows is a panic.
use dota2_ob.Prelude.{ℕ, ◌+◌, Bool, Option, none, some, List, [], ◌∷◌, ◌++◌, if◌then◌else◌, str_eq}
use dota2_ob.Prelude.Int.{ℤ, eqb_ℤ}
use dota2_ob.Clock.{Transition}
use dota2_ob.Raw.{
  Event, Read, Combat, FileInfo, Engine, Header, TeamState, PlayerResource, ParseDone, ParseFailed,
  GameState, kind_file_info, kind_engine, kind_header, kind_team_state, kind_player_res,
  kind_game_state, kind_combat, kind_hero_state, kind_parse_done, kind_parse_failed,
}
use dota2_ob.Raw.Read.{line, unreadable}

pub record Summary (N : Type 0) : Type 0 where
  pub file_info : Option (FileInfo N)
  pub engine : Option Engine
  pub header : Option Header
  pub teams : List (ℤ × TeamState)
  pub player_res : List PlayerResource
  pub transitions : List (Transition N)
  pub parse_done : Option (ParseDone N)
  pub parse_failed : Option ParseFailed
  pub combat_total : ℕ
  pub max_combat_ts : N
  pub last_tick : ℕ
  pub last_net_tick : ℕ
  pub hero_snapshots : ℕ
  pub combat_events : ℕ
  pub game_states : ℕ

-- What a pass over the stream ends with.
pub data Scanned (N : Type 0) : Type 0 where
  scanned : Summary N → Scanned N
  read_error : Scanned N
  nil_panic : Scanned N

abbrev pub or_index : ℤ → Option ℤ → ℤ
or_index index none = index
or_index index (some n) = n

-- TeamNumValue
abbrev pub team_num_value : TeamState → ℤ
team_num_value t = or_index t.team_index t.team_num

-- Teams[k] = t
unfoldable pub put_team : ℤ → TeamState → List (ℤ × TeamState) → List (ℤ × TeamState)
put_team k t [] = (k, t) ∷ []
put_team k t ((j, u) ∷ ts) =
    let rest = put_team k t ts in if eqb_ℤ j k then (k, t) ∷ ts else (j, u) ∷ rest

module _ {N : Type 0} (lt : N → N → Bool) where
  abbrev pub seen_team : Option TeamState → Summary N → Option (Summary N)
  seen_team none s = none
  seen_team (some t) s = some (record s { teams = put_team (team_num_value t) t s.teams })

  abbrev pub seen_player : Option PlayerResource → Summary N → Option (Summary N)
  seen_player none s = none
  seen_player (some p) s = some (record s { player_res = s.player_res ++ p ∷ [] })

  abbrev pub seen_state : Option (GameState N) → Summary N → Option (Summary N)
  seen_state none s = none
  seen_state (some g) s =
      let t : Transition N = record { state = g.state; combat_ts = g.combat_ts; tick = g.tick } in
      some (record s { transitions = s.transitions ++ t ∷ []; game_states = s.game_states + 1 })

  abbrev pub seen_combat : Option (Combat N) → Summary N → Option (Summary N)
  seen_combat none s = none
  seen_combat (some c) s =
      let s' : Summary N = record s { combat_events = s.combat_events + 1 } in
      some (if lt s.max_combat_ts c.ts then record s' { max_combat_ts = c.ts } else s')

  abbrev pub seen_done : Option (ParseDone N) → Summary N → Option (Summary N)
  seen_done none s = none
  seen_done (some d) s =
      some
        (record s { parse_done = some d; last_tick = d.last_tick; last_net_tick = d.last_net_tick })

  -- The switch on the kind: `none` is a panic.
  unfoldable pub see : Event N → Summary N → Option (Summary N)
  unfolding put_team
  see e s =
      if str_eq e.kind kind_file_info
      then some (record s { file_info = e.file_info })
      else if str_eq e.kind kind_engine
      then some (record s { engine = e.engine })
      else if str_eq e.kind kind_header
      then some (record s { header = e.header })
      else if str_eq e.kind kind_team_state
      then seen_team e.team_state s
      else if str_eq e.kind kind_player_res
      then seen_player e.player_res s
      else if str_eq e.kind kind_game_state
      then seen_state e.game_state s
      else if str_eq e.kind kind_combat
      then seen_combat e.combat s
      else if str_eq e.kind kind_hero_state
      then some (record s { hero_snapshots = s.hero_snapshots + 1 })
      else if str_eq e.kind kind_parse_done
      then seen_done e.parse_done s
      else if str_eq e.kind kind_parse_failed
      then some (record s { parse_failed = e.parse_failed })
      else some s

  abbrev pub empty_summary : N → Summary N
  empty_summary zero = record {
    file_info = none;
    engine = none;
    header = none;
    teams = [];
    player_res = [];
    transitions = [];
    parse_done = none;
    parse_failed = none;
    combat_total = 0;
    max_combat_ts = zero;
    last_tick = 0;
    last_net_tick = 0;
    hero_snapshots = 0;
    combat_events = 0;
    game_states = 0;
  }

  abbrev pub then_scan : (Summary N → Scanned N) → Option (Summary N) → Scanned N
  then_scan k none = nil_panic
  then_scan k (some s) = k s

  unfoldable pub scan_from : List (Read N) → Summary N → Scanned N
  unfolding see
  scan_from [] s = scanned s
  scan_from (unreadable ∷ rs) s = read_error
  scan_from (line e ∷ rs) s = then_scan (scan_from rs) (see e s)

  -- ScanSummary
  unfoldable pub scan_summary : N → List (Read N) → Scanned N
  unfolding scan_from
  scan_summary zero rs = scan_from rs (empty_summary zero)
