-- ===== src/Facts/Buildings.antt =====
-- classifyBuilding of internal/replay/facts/facts.go.
use dota2_ob.Prelude.{ℕ, String, ◌||◌, Option, none, some, ◌==◌, if◌then◌else◌, str_eq}
use dota2_ob.Prelude.Text.{contains_text, to_lower}

pub record Building : Type 0 where
  pub kind : String
  pub tier : Option ℕ
  pub lane : String
  pub team : String

abbrev pub team_by_number : Option ℕ → String
team_by_number none = ""
team_by_number (some t) = if t == 2 then "radiant" else if t == 3 then "dire" else ""

unfoldable pub team_of_name : String → Option ℕ → String
unfolding contains_text
team_of_name lower target_team =
    if contains_text lower "goodguys"
    then "radiant"
    else if contains_text lower "badguys"
    then "dire"
    else team_by_number target_team

unfoldable pub kind_of_name : String → String
unfolding contains_text
kind_of_name lower =
    if contains_text lower "tower"
    then "tower"
    else if contains_text lower "rax"
    then "barracks"
    else if contains_text lower "fort" || contains_text lower "ancient"
    then "ancient"
    else if contains_text lower "shrine"
    then "shrine"
    else if contains_text lower "filler"
    then "filler"
    else if contains_text lower "underlord_portal" || contains_text lower "portal"
    then "portal"
    else "other"

unfoldable pub tier_of_name : String → Option ℕ
unfolding contains_text
tier_of_name lower =
    if contains_text lower "tower1"
    then some 1
    else if contains_text lower "tower2"
    then some 2
    else if contains_text lower "tower3"
    then some 3
    else if contains_text lower "tower4"
    then some 4
    else none

-- The kind after the test for melee and ranged barracks.
unfoldable pub melee_kind : String → String → String
unfolding contains_text
melee_kind lower kind =
    if contains_text lower "melee"
    then (if contains_text lower "ranged" then kind else "barracks")
    else kind

-- The lane is still "unknown" where the code sets it to that once more.
unfoldable pub lane_of_name : String → String
unfolding contains_text
lane_of_name lower =
    if contains_text lower "_top"
    then "top"
    else if contains_text lower "_mid"
    then "mid"
    else if contains_text lower "_bot" || contains_text lower "_bottom"
    then "bottom"
    else "unknown"

-- The attackers' team is an argument that the code does not read.
unfoldable pub classify_building : String → Option ℕ → Option ℕ → Building
unfolding to_lower team_of_name kind_of_name tier_of_name melee_kind lane_of_name
classify_building name target_team attacker_team =
    let lower = to_lower name in
    if str_eq name ""
    then record { kind = "unknown"; tier = none; lane = "unknown"; team = "" }
    else record {
      kind = melee_kind lower (kind_of_name lower);
      tier = tier_of_name lower;
      lane = lane_of_name lower;
      team = team_of_name lower target_team;
    }
