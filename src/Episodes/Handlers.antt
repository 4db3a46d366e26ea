-- ===== src/Episodes/Handlers.antt =====
-- The handlers of a fact of internal/replay/episodes/episodes.go.
use dota2_ob.Prelude.{
  String, Bool, true, false, not, ◌&&◌, ◌||◌, Option, none, some, List, [], ◌∷◌, if◌then◌else◌,
  is_empty, is_some, lookup, insert, str_eq,
}
use dota2_ob.Prelude.Int.{ℤ, pos}
use dota2_ob.Prelude.Text.{contains_text}
use dota2_ob.Prelude.Decimal.{format_int}
use dota2_ob.Clock.{FloatOps}
use dota2_ob.Facts.Payloads.{Fact, DeathRespawnBuyback, ObjectiveFact, VisionFact, ModifierFact}
use dota2_ob.Episodes.Types.{
  Episode, Builder, DeathRound, FightWindow, kind_death_round, kind_objective, kind_ward,
  kind_smoke,
}
use dota2_ob.Episodes.Types.{Progress}
use dota2_ob.Episodes.Window.{◌<>◌, blank, one_later, add, add_death}

module _ {N : Type 0} (f : FloatOps N) where
  -- handleDeath
  unfoldable pub handle_death :
      String → N → List (String × DeathRound N) → List (String × DeathRound N)
  unfolding insert
  handle_death account gs rounds =
      if str_eq account ""
      then rounds
      else insert account
          (record {
            account = account;
            death_sec = gs;
            respawn_sec = f.zero;
            buyback_sec = f.zero;
            closed = false;
          })
          rounds

  abbrev pub round_episode : String → String → N → N → Episode N
  round_episode detail account death_sec gs =
      record (blank f kind_death_round death_sec (one_later f gs)) {
        account_id = account;
        participants = account ∷ [];
        detail = detail;
        evidence_ids = f.to_int death_sec ∷ [];
      }

  -- The end of an open round.
  abbrev pub end_round :
      String
      → (DeathRound N → DeathRound N)
      → String
      → N
      → Option (DeathRound N)
      → Progress N
      → Progress N
  end_round detail stamp account gs none p = p
  end_round detail stamp account gs (some r) p = if r.closed then p else record p {
    death_rounds = insert account (record (stamp r) { closed = true }) p.death_rounds;
    builder = add f (round_episode detail account r.death_sec gs) p.builder;
  }

  abbrev pub bought_back : N → DeathRound N → DeathRound N
  bought_back gs r = record r { buyback_sec = gs }

  abbrev pub respawned : N → DeathRound N → DeathRound N
  respawned gs r = record r { respawn_sec = gs }

  -- handleBuyback
  unfoldable pub handle_buyback : String → N → Progress N → Progress N
  unfolding add insert lookup
  handle_buyback account gs p =
      end_round "buyback_round" (bought_back gs) account gs (lookup account p.death_rounds) p

  -- handleRespawn
  unfoldable pub handle_respawn : String → N → Progress N → Progress N
  unfolding add insert lookup
  handle_respawn account gs p =
      end_round "respawn_round" (respawned gs) account gs (lookup account p.death_rounds) p

  abbrev pub with_fight : FightWindow N × Builder N → Progress N → Progress N
  with_fight wb p = record p { fights = wb.0; builder = wb.1 }

  abbrev pub count_death : String → N → ℤ → Progress N → Progress N
  count_death account gs seq p =
      if str_eq account "" then p else with_fight (add_death f account gs seq p.fights p.builder) p

  abbrev pub with_rounds : List (String × DeathRound N) → Progress N → Progress N
  with_rounds rounds p = record p { death_rounds = rounds }

  -- The switch on the kind of a death, a buyback or a respawn.
  unfoldable pub on_death_fact : Fact N → DeathRespawnBuyback N → Progress N → Progress N
  unfolding add_death handle_death handle_buyback handle_respawn
  on_death_fact x d p =
      if str_eq d.kind "death"
      then with_rounds (handle_death d.account_id x.game_second p.death_rounds)
          (count_death d.account_id x.game_second x.source_seq p)
      else if str_eq d.kind "buyback"
      then handle_buyback d.account_id x.game_second p
      else if str_eq d.kind "respawn"
      then handle_respawn d.account_id x.game_second p
      else p

  abbrev pub participants_of : ObjectiveFact → List String
  participants_of o =
      if is_empty o.attackers && not (str_eq o.actor_account "")
      then o.actor_account ∷ []
      else o.attackers

  unfoldable pub objective_episode : ObjectiveFact → N → Episode N
  objective_episode o gs = record (blank f kind_objective gs (one_later f gs)) {
    detail = o.building_name;
    region = o.team <> "/" <> o.building_kind;
    participants = participants_of o;
    evidence_ids = f.to_int gs ∷ [];
    missing_inputs = if is_empty (participants_of o) then "attacker_resolution" ∷ [] else [];
  }

  abbrev pub on_objective : Fact N → ObjectiveFact → Progress N → Progress N
  on_objective x o p =
      if o.is_real_building
      then record p { builder = add f (objective_episode o x.game_second) p.builder }
      else p

  abbrev pub ward_region : VisionFact N → Option N → Option N → String
  ward_region v (some x) (some y) =
      "(" <> format_int (f.to_int x) <> "," <> format_int (f.to_int y) <> ")"
  ward_region v none y = "ward:" <> v.kind
  ward_region v (some x) none = "ward:" <> v.kind

  unfoldable pub ward_episode : Fact N → VisionFact N → Episode N
  unfolding format_int
  ward_episode x v = record (blank f kind_ward x.game_second (one_later f x.game_second)) {
    account_id = v.account_id;
    participants = v.account_id ∷ [];
    region = ward_region v v.location_x v.location_y;
    detail = v.kind;
    evidence_ids = x.source_seq ∷ [];
  }

  abbrev pub is_ward : String → Bool
  is_ward kind = str_eq kind "obs_ward_placed" || str_eq kind "sentry_ward_placed"

  abbrev pub ward_key : VisionFact N → String
  ward_key v = v.account_id <> ":" <> v.kind

  abbrev pub with_ward : Fact N → VisionFact N → Progress N → Progress N
  with_ward x v p = record p {
    ward_seen = insert (ward_key v) x.game_second p.ward_seen;
    builder = add f (ward_episode x v) p.builder;
  }

  abbrev pub first_ward : Fact N → VisionFact N → Progress N → Progress N
  first_ward x v p = if is_some (lookup (ward_key v) p.ward_seen) then p else with_ward x v p

  -- The first ward of a kind that an account places.
  unfoldable pub on_vision : Fact N → VisionFact N → Progress N → Progress N
  unfolding add ward_episode insert lookup
  on_vision x v p = if not (is_ward v.kind) then p else first_ward x v p

  unfoldable pub smoke_episode : Fact N → ModifierFact N → Episode N
  smoke_episode x m = record (blank f kind_smoke x.game_second (one_later f x.game_second)) {
    account_id = m.account_id;
    participants = m.account_id ∷ [];
    evidence_ids = x.source_seq ∷ [];
    confidence = pos 9;
    detail = m.modifier;
  }

  abbrev pub or_false : Option Bool → Bool
  or_false none = false
  or_false (some b) = b

  abbrev pub smoke_key : Fact N → ModifierFact N → String
  smoke_key x m = m.account_id <> ":" <> format_int (f.to_int x.game_second)

  abbrev pub with_smoke : Fact N → ModifierFact N → Progress N → Progress N
  with_smoke x m p = record p {
    smoke_seen = insert (smoke_key x m) true p.smoke_seen;
    builder = add f (smoke_episode x m) p.builder;
  }

  abbrev pub first_smoke : Fact N → ModifierFact N → Progress N → Progress N
  first_smoke x m p = if or_false (lookup (smoke_key x m) p.smoke_seen) then p else with_smoke x m p

  abbrev pub is_smoke : ModifierFact N → Bool
  is_smoke m = contains_text m.modifier "smoke_of_deceit" && str_eq m.kind "add"

  -- The first smoke of an account in a second.
  unfoldable pub on_modifier : Fact N → ModifierFact N → Progress N → Progress N
  unfolding add smoke_episode contains_text insert lookup format_int
  on_modifier x m p = if not (is_smoke m) then p else first_smoke x m p
