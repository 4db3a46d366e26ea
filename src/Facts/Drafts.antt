-- ===== src/Facts/Drafts.antt =====
-- The fact of each combat-log entry of internal/replay/facts/facts.go. The payload of a fact is kept as
-- a value until it is emitted, where json.Marshal turns it into bytes.
use dota2_ob.Prelude.{
  ℕ, String, Bool, not, ◌&&◌, ◌||◌, Option, none, some, [], ◌++◌, ◌==◌, if◌then◌else◌, lookup,
  str_eq,
}
use dota2_ob.Raw.{Combat}
use dota2_ob.Facts.Payloads.{
  CombatFact, Payload, family_combat, family_death_respawn, family_economy, family_item,
  family_ability, family_modifier, family_objective,
}
use dota2_ob.Facts.Buildings.{Building, classify_building}
use dota2_ob.Facts.Accounts.{
  Builder, player_ref, account_or_empty, unresolved, account_ids_from_slots, side_of, is_true,
  is_false, when,
}

abbrev pub combat_damage : String
combat_damage = "damage"

abbrev pub combat_heal : String
combat_heal = "heal"

module _ {N : Type 0} (b : Builder N) where
  unfoldable pub new_combat_fact : String → Combat N → CombatFact N
  unfolding player_ref account_ids_from_slots
  new_combat_fact kind c = record {
    kind = kind;
    actor_account = account_or_empty b c.attacker_name;
    actor_name = c.attacker_name;
    target_account = account_or_empty b c.target_name;
    target_name = c.target_name;
    inflictor = c.inflictor_name;
    value = c.value;
    location_x = c.location_x;
    location_y = c.location_y;
    attacker_team = c.attacker_team;
    target_team = c.target_team;
    damage_type = c.damage_type;
    is_heal_save = c.is_heal_save;
    is_ultimate = c.is_ultimate;
    assist_players = account_ids_from_slots b c.assist_players;
    missing =
        when b (str_eq (account_or_empty b c.attacker_name) "" && is_true b c.is_attacker_hero)
          "attacker_account_unresolved"
        ++ when b (str_eq (account_or_empty b c.target_name) "" && is_true b c.is_target_hero)
            "target_account_unresolved";
  }

  unfoldable pub fact_combat : Combat N → Payload N
  unfolding new_combat_fact
  fact_combat c = Payload.combat (
      new_combat_fact (if str_eq c.type "DOTA_COMBATLOG_HEAL" then combat_heal else combat_damage)
        c)

  unfoldable pub fact_death : Combat N → Payload N
  unfolding player_ref account_ids_from_slots lookup
  fact_death c = Payload.death (record {
    kind = "death";
    account_id = account_or_empty b c.target_name;
    hero_name = c.target_name;
    side = if str_eq c.target_name "" then "" else side_of b (player_ref b c.target_name);
    killer_account = account_or_empty b c.attacker_name;
    killer_name = c.attacker_name;
    assist_accounts = account_ids_from_slots b c.assist_players;
    respawn_time = none;
    buyback_cost = none;
    death_value = c.value;
    missing =
        when b (str_eq c.target_name "") "target_name_missing"
        ++ unresolved b c.target_name "target_account_unresolved"
        ++ when b (is_false b c.is_target_hero) "non_hero_death";
  })

  unfoldable pub fact_buyback : Combat N → Payload N
  unfolding player_ref lookup
  fact_buyback c = Payload.death (record {
    kind = "buyback";
    account_id = account_or_empty b c.attacker_name;
    hero_name = c.attacker_name;
    side = if str_eq c.attacker_name "" then "" else side_of b (player_ref b c.attacker_name);
    killer_account = "";
    killer_name = "";
    assist_accounts = [];
    respawn_time = none;
    buyback_cost = c.value;
    death_value = none;
    missing = unresolved b c.attacker_name "attacker_account_unresolved";
  })

  -- The hero of an economy entry: the target, or else the attacker.
  abbrev pub economy_hero : Combat N → String
  economy_hero c = if str_eq c.target_name "" then c.attacker_name else c.target_name

  unfoldable pub fact_economy : Combat N → Payload N
  unfolding player_ref
  fact_economy c =
      let gold : Bool = str_eq c.type "DOTA_COMBATLOG_GOLD" in
      Payload.economy (record {
        account_id = account_or_empty b (economy_hero c);
        hero_name = economy_hero c;
        networth = c.networth;
        last_hits = c.last_hits;
        gold = if gold then c.value else none;
        xp = if gold then none else c.value;
        reason = if gold then c.gold_reason else none;
        missing =
            when b (str_eq (economy_hero c) "") "economy_target_missing"
            ++ unresolved b (economy_hero c) "economy_account_unresolved";
      })

  unfoldable pub fact_item_purchase : Combat N → Payload N
  unfolding player_ref
  fact_item_purchase c = Payload.item (record {
    kind = "purchase";
    account_id = account_or_empty b c.target_name;
    hero_name = c.target_name;
    item_name = c.inflictor_name;
    cost = c.value;
    slot = none;
    missing = unresolved b c.target_name "target_account_unresolved";
  })

  unfoldable pub fact_item_use : Combat N → Payload N
  unfolding player_ref
  fact_item_use c = Payload.item (record {
    kind = "use";
    account_id = account_or_empty b c.attacker_name;
    hero_name = c.attacker_name;
    item_name = c.inflictor_name;
    cost = none;
    slot = none;
    missing = unresolved b c.attacker_name "attacker_account_unresolved";
  })

  unfoldable pub fact_ability : Combat N → Payload N
  unfolding player_ref
  fact_ability c = Payload.ability (record {
    account_id = account_or_empty b c.attacker_name;
    hero_name = c.attacker_name;
    ability_name = c.inflictor_name;
    level = c.ability_level;
    target_account = account_or_empty b c.target_name;
    target_name = c.target_name;
    missing = unresolved b c.attacker_name "attacker_account_unresolved";
  })

  unfoldable pub fact_modifier : Combat N → Payload N
  unfolding player_ref
  fact_modifier c = Payload.modifier (record {
    kind = if str_eq c.type "DOTA_COMBATLOG_MODIFIER_REMOVE" then "remove" else "add";
    account_id = account_or_empty b c.target_name;
    hero_name = c.target_name;
    modifier = c.inflictor_name;
    duration = c.modifier_duration;
    source_account = account_or_empty b c.attacker_name;
    source_name = c.attacker_name;
    missing = unresolved b c.target_name "target_account_unresolved";
  })

  abbrev pub is_structure : String → Bool
  is_structure kind = not (str_eq kind "unknown") && not (str_eq kind "other")

  abbrev pub type_exclusion : Option ℕ → String
  type_exclusion none = ""
  type_exclusion (some t) = if t == 0 then "building_type_0_invalid_classified_by_name" else ""

  unfoldable pub fact_objective : Combat N → Payload N
  unfolding player_ref account_ids_from_slots classify_building
  fact_objective c =
      let place : Building = classify_building c.target_name c.target_team c.attacker_team in
      Payload.objective (record {
        building_name = c.target_name;
        building_kind = place.kind;
        building_tier = place.tier;
        building_lane = place.lane;
        team = place.team;
        actor_account = account_or_empty b c.attacker_name;
        actor_name = c.attacker_name;
        attackers = account_ids_from_slots b c.assist_players;
        is_real_building = is_structure place.kind;
        exclusion =
            if is_structure place.kind
            then type_exclusion c.building_type
            else Prim.Native.String.◌++◌ "not_a_real_structure_" place.kind;
        missing = [];
      })

  -- The switch of emitCombat: the family of the fact with its payload, or no fact.
  unfoldable pub combat_draft : Combat N → Option (String × Payload N)
  unfolding fact_combat fact_death fact_buyback fact_economy fact_item_purchase fact_item_use
      fact_ability fact_modifier fact_objective
  combat_draft c =
      if str_eq c.type "DOTA_COMBATLOG_DEATH"
      then some (family_death_respawn, fact_death c)
      else if str_eq c.type "DOTA_COMBATLOG_BUYBACK"
      then some (family_death_respawn, fact_buyback c)
      else if str_eq c.type "DOTA_COMBATLOG_GOLD" || str_eq c.type "DOTA_COMBATLOG_XP"
      then some (family_economy, fact_economy c)
      else if str_eq c.type "DOTA_COMBATLOG_PURCHASE"
      then some (family_item, fact_item_purchase c)
      else if str_eq c.type "DOTA_COMBATLOG_ITEM"
      then some (family_item, fact_item_use c)
      else if str_eq c.type "DOTA_COMBATLOG_ABILITY"
      then some (family_ability, fact_ability c)
      else if str_eq c.type "DOTA_COMBATLOG_MODIFIER_ADD"
          || str_eq c.type "DOTA_COMBATLOG_MODIFIER_REMOVE"
          || str_eq c.type "DOTA_COMBATLOG_MODIFIER_STACK_EVENT"
      then some (family_modifier, fact_modifier c)
      else if str_eq c.type "DOTA_COMBATLOG_TEAM_BUILDING_KILL"
      then some (family_objective, fact_objective c)
      else if str_eq c.type "DOTA_COMBATLOG_DAMAGE" || str_eq c.type "DOTA_COMBATLOG_HEAL"
      then some (family_combat, fact_combat c)
      else none
