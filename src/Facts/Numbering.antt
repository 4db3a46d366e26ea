-- ===== src/Facts/Numbering.antt =====
-- The state of Build of internal/replay/facts/facts.go, its facts as they are numbered, handed over
-- and counted, and the facts of the match and of the participants.
use dota2_ob.Prelude.{
  ℕ, ◌+◌, String, false, Option, none, some, List, [], ◌∷◌, ◌++◌, if◌then◌else◌, lookup, insert,
  str_eq,
}
use dota2_ob.Prelude.Int.{ℤ, pos, eqb_ℤ}
use dota2_ob.Clock.{FloatOps}
use dota2_ob.Identity.Participants.{Participant}
use dota2_ob.Facts.Payloads.{
  Fact, HeroBinding, Coverage, Payload, family_match_state, family_participant,
}
use dota2_ob.Facts.Accounts.{Builder, class_for_hero}

abbrev pub facts_schema : String
facts_schema = "replay.facts.v2"

-- sideOfWinner
unfoldable pub side_of_winner : ℤ → String
side_of_winner winner =
    if eqb_ℤ winner (pos 2)
    then "radiant"
    else if eqb_ℤ winner (pos 3)
    then "dire"
    else if eqb_ℤ winner (pos 0)
    then "none"
    else "unknown"

-- heroNameFor
unfoldable pub hero_name_for : String → List (String × String) → String
hero_name_for account [] = ""
hero_name_for account ((name, acc) ∷ more) =
    let rest = hero_name_for account more in if str_eq acc account then name else rest

-- The state of Build: the sequence number, the counts and the maps, the summary's own counters, and
-- the facts that were handed to the callback.
pub record Work (N : Type 0) : Type 0 where
  pub seq : ℕ
  pub counts : List (String × Coverage)
  pub last_emit : List (String × N)
  pub last_seen_second : List (String × N)
  pub hero_bindings : List HeroBinding
  pub game_second_min : N
  pub game_second_max : N
  pub position_gaps : List (String × ℤ)
  pub raw_events : ℕ
  pub combat_events : ℕ
  pub emitted : List (Fact N)

abbrev pub fresh_coverage : String → Coverage
fresh_coverage f = record {
  family = f;
  count = 0;
  eligible = pos 0;
  missing = 0;
  unavailable_reason = "";
  available = false;
}

abbrev pub coverage_or : Coverage → Option Coverage → Coverage
coverage_or c none = c
coverage_or c (some d) = d

abbrev pub gap_or_zero : Option ℤ → ℤ
gap_or_zero none = pos 0
gap_or_zero (some g) = g

-- initCount(f)
unfoldable pub init_count : String → List (String × Coverage) → Coverage
unfolding lookup
init_count f counts = coverage_or (fresh_coverage f) (lookup f counts)

-- initCount(f).Count++
unfoldable pub add_count : String → List (String × Coverage) → List (String × Coverage)
unfolding init_count insert
add_count f counts =
    let c : Coverage = init_count f counts in insert f (record c { count = c.count + 1 }) counts

-- initCount(f).Missing++
unfoldable pub add_missing : String → List (String × Coverage) → List (String × Coverage)
unfolding init_count insert
add_missing f counts =
    let c : Coverage = init_count f counts in insert f (record c { missing = c.missing + 1 }) counts

module _ {N : Type 0} (f : FloatOps N) (marshal : Payload N → Option (List ℕ)) (b : Builder N) where
  -- The fact of a family, numbered, handed over and counted.
  unfoldable pub hand_over : String → N → ℕ → ℤ → Option (List ℕ) → Work N → Work N
  unfolding add_count
  hand_over family gs tick source payload w =
      let fact : Fact N = record {
        seq = w.seq + 1;
        family = family;
        match_id = b.idn.match_id;
        game_second = gs;
        game_second_ok = f.le f.zero gs;
        tick = tick;
        source_seq = source;
        schema_version = facts_schema;
        payload = payload;
      } in
      record w {
        seq = w.seq + 1;
        counts = add_count family w.counts;
        emitted = w.emitted ++ fact ∷ [];
      }

  -- marshal and emitFact, which does not look at the callback's error
  abbrev pub emit_bytes : String → N → ℕ → Option (List ℕ) → Work N → Work N
  emit_bytes family gs tick none w = w
  emit_bytes family gs tick (some bytes) w = hand_over family gs tick (pos 0) (some bytes) w

  unfoldable pub emit_fact : String → N → ℕ → Payload N → Work N → Work N
  unfolding hand_over
  emit_fact family gs tick p w = emit_bytes family gs tick (marshal p) w

  abbrev pub match_payload : Payload N
  match_payload = Payload.match_state (record {
    match_id = b.idn.match_id;
    game_mode = b.idn.game_mode;
    game_winner = b.idn.game_winner;
    league_id = b.idn.league_id;
    game_build = b.idn.game_build;
    duration_sec = b.clk.game_duration_seconds;
    winner_side = side_of_winner b.idn.game_winner;
    source_kind = "replay_file_info";
    schema_version = facts_schema;
  })

  abbrev pub participant_payload : Participant → Payload N
  participant_payload p = Payload.participant (record {
    slot = p.slot;
    account_id = p.account_id;
    steam_id64 = p.steam_id64;
    player_name = p.player_name;
    hero_name = p.hero_name;
    hero_id = p.hero_id;
    side = p.side;
    team = p.team;
    binding_source = "demo_file_info+manifest_crosscheck";
    schema_version = facts_schema;
  })

  abbrev pub binding_of : Participant → HeroBinding
  binding_of p = record {
    account_id = p.account_id;
    hero_name = p.hero_name;
    side = p.side;
    class = class_for_hero p.hero_name;
  }

  unfoldable pub emit_participants : List Participant → Work N → Work N
  unfolding emit_fact class_for_hero
  emit_participants [] w = w
  emit_participants (p ∷ ps) w =
      let w' : Work N = emit_fact family_participant f.zero 0 (participant_payload p) w in
      emit_participants ps (record w' { hero_bindings = w'.hero_bindings ++ binding_of p ∷ [] })

  abbrev pub empty_work : Work N
  empty_work = record {
    seq = 0;
    counts = [];
    last_emit = [];
    last_seen_second = [];
    hero_bindings = [];
    game_second_min = f.zero;
    game_second_max = f.zero;
    position_gaps = [];
    raw_events = 0;
    combat_events = 0;
    emitted = [];
  }

  -- The match and the participants.
  unfoldable pub preamble : Work N
  unfolding emit_fact emit_participants side_of_winner
  preamble =
      emit_participants b.idn.participants
        (emit_fact family_match_state f.zero 0 match_payload empty_work)
