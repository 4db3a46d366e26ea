-- ===== src/Episodes/Tests.antt =====
-- A stream of deaths through Build of internal/replay/episodes/episodes.go, with whole seconds for
-- float64, a byte for each payload, and the decoder that knows two of them.
use dota2_ob.Prelude.{
  length, insert, ℕ, ◌≡◌, refl, String, true, Option, none, some, List, [], ◌∷◌, map, ◌==◌,
  if◌then◌else◌,
}
use dota2_ob.Prelude.Int.{ℤ, pos, ◌-ℤ◌}
use dota2_ob.Clock.Tests.{seconds}
use dota2_ob.Facts.Payloads.{Fact, DeathRespawnBuyback}
use dota2_ob.Episodes.{Decoders, run, flush, initial}
use dota2_ob.Episodes.Types.{Progress}
use dota2_ob.Episodes.Clusters.{clusters, fights_of, join, last_death, accounts_of, window_of}
use dota2_ob.Episodes.Fights.{death_of, deaths_of, fights_in-eq-clusters}
use dota2_ob.Episodes.Quiet.{fights_in, finished}
use dota2_ob.Episodes.Events.{events_in, event_of, rounds, rounds_in, events_of}
use dota2_ob.Episodes.Rounds.{rounds_in-eq-rounds}

abbrev fact : ℕ → ℕ → Fact ℤ
fact code at = record {
  seq = 1;
  family = "death_respawn_buyback_event";
  match_id = "42";
  game_second = pos at;
  game_second_ok = true;
  tick = 0;
  source_seq = pos at;
  schema_version = "replay.facts.v2";
  payload = some (code ∷ []);
}

abbrev happened : String → String → DeathRespawnBuyback ℤ
happened kind account = record {
  kind = kind;
  account_id = account;
  hero_name = "";
  side = "";
  killer_account = "";
  killer_name = "";
  assist_accounts = [];
  respawn_time = none;
  buyback_cost = none;
  death_value = none;
  missing = [];
}

abbrev decode : Option (List ℕ) → Option (DeathRespawnBuyback ℤ)
decode (some (c ∷ [])) =
    if c == 1
    then some (happened "death" "7")
    else if c == 2
    then some (happened "death" "8")
    else if c == 3
    then some (happened "respawn" "7")
    else none
decode _ = none

abbrev decoders : Decoders ℤ
decoders = record {
  death = decode;
  objective = λ o. none;
  vision = λ o. none;
  modifier = λ o. none;
}

-- Two deaths 20 seconds apart, a respawn, and a death far later.
abbrev stream : List (Fact ℤ)
stream = fact 1 100 ∷ fact 2 120 ∷ fact 3 130 ∷ fact 3 140 ∷ fact 1 900 ∷ []

abbrev facts : List (Option (Fact ℤ))
facts = map some stream

abbrev start : Progress ℤ
start = initial seconds "42" []

fights_in-eq-clusters_example :
    (q : Progress ℤ) × (run seconds decoders facts start ≡ some q)
    × (fights_in (flush seconds q).builder.episodes
        ≡ map
            (finished seconds)
            (fights_of seconds (clusters seconds (deaths_of seconds decoders facts))))
fights_in-eq-clusters_example = fights_in-eq-clusters seconds decoders "42" [] stream

rounds_in-eq-rounds_example :
    (q : Progress ℤ) × (run seconds decoders facts start ≡ some q)
    × (rounds_in seconds "7" (flush seconds q).builder.episodes
        ≡ map (finished seconds) (rounds seconds "7" none (events_of seconds "7" decoders facts)))
rounds_in-eq-rounds_example = rounds_in-eq-rounds seconds "7" decoders "42" [] stream refl

-- The fights and rounds of the stream: one fight of two accounts, one round of account 7.
run_of_stream :
    (length (fights_of seconds (clusters seconds (deaths_of seconds decoders facts))) ≡ 1)
    × (length (rounds seconds "7" none (events_of seconds "7" decoders facts)) ≡ 1)
unfolding clusters join last_death accounts_of window_of fights_of deaths_of death_of insert rounds
    events_of events_in event_of ◌-ℤ◌
run_of_stream = (refl, refl)
