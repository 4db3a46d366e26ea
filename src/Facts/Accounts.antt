-- ===== src/Facts/Accounts.antt =====
-- NewBuilder of internal/replay/facts/facts.go, and the accounts behind the names and slots of the
-- combat log. A Go map is an association list in the order of the first writes.
use dota2_ob.Prelude.{
  String, Bool, true, false, not, Option, none, some, List, [], ◌∷◌, ◌++◌, if◌then◌else◌, is_some,
  lookup, insert, str_eq,
}
use dota2_ob.Prelude.Int.{ℤ, eqb_ℤ}
use dota2_ob.Prelude.Text.{trim_prefix, upper_first, split_at, join}
use dota2_ob.Clock.{Clock}
use dota2_ob.Identity.{Identity}
use dota2_ob.Identity.Participants.{Participant}

pub record Builder (N : Type 0) : Type 0 where
  pub clk : Clock N
  pub idn : Identity
  pub hero_name_to_account : List (String × String)
  pub account_to_name : List (String × String)
  pub account_to_side : List (String × String)
  pub account_to_slot : List (String × ℤ)
  pub hero_class_to_name : List (String × String)

abbrev map_words : List String → List String
map_words [] = []
map_words (p ∷ ps) = upper_first p ∷ map_words ps

unfoldable pub pascal : String → String
unfolding upper_first split_at join
pascal s = join (map_words (split_at 95 s))

unfoldable pub class_for_hero : String → String
unfolding pascal trim_prefix
class_for_hero hero_name =
    Prim.Native.String.◌++◌ "CDOTA_Unit_Hero_" (pascal (trim_prefix hero_name "npc_dota_hero_"))

unfoldable pub add_participant : {N : Type 0} → Participant → Builder N → Builder N
unfolding class_for_hero insert
add_participant p b = record b {
  hero_name_to_account = insert p.hero_name p.account_id b.hero_name_to_account;
  account_to_name = insert p.account_id p.player_name b.account_to_name;
  account_to_side = insert p.account_id p.side b.account_to_side;
  account_to_slot = insert p.account_id p.slot b.account_to_slot;
  hero_class_to_name = insert (class_for_hero p.hero_name) p.hero_name b.hero_class_to_name;
}

unfoldable pub add_participants : {N : Type 0} → List Participant → Builder N → Builder N
unfolding add_participant
add_participants [] b = b
add_participants (p ∷ ps) b = add_participants ps (add_participant p b)

-- NewBuilder
unfoldable pub new_builder : {N : Type 0} → Clock N → Identity → Builder N
unfolding add_participants
new_builder clk idn = add_participants idn.participants (record {
  clk = clk;
  idn = idn;
  hero_name_to_account = [];
  account_to_name = [];
  account_to_side = [];
  account_to_slot = [];
  hero_class_to_name = [];
})

-- A text from a map, or the empty text.
abbrev pub or_empty : Option String → String
or_empty none = ""
or_empty (some s) = s

module _ {N : Type 0} (b : Builder N) where
  -- AccountForHero, and playerRef with it
  unfoldable pub player_ref : String → Option String
  unfolding lookup
  player_ref name = lookup name b.hero_name_to_account

  abbrev pub account_of_name : Option String → Option String
  account_of_name none = none
  account_of_name (some name) = player_ref name

  -- AccountForClass
  unfoldable pub account_for_class : String → Option String
  unfolding lookup
  account_for_class class = account_of_name (lookup class b.hero_class_to_name)

  -- The account of a name, where there is one.
  abbrev pub account_or_empty : String → String
  account_or_empty name = if str_eq name "" then "" else or_empty (player_ref name)

  abbrev pub unresolved : String → String → List String
  unresolved name reason =
      if str_eq name "" then [] else if is_some (player_ref name) then [] else reason ∷ []

  unfoldable pub slot_account : ℤ → List Participant → List String
  slot_account s [] = []
  slot_account s (p ∷ ps) =
      let rest = slot_account s ps in if eqb_ℤ p.slot s then p.account_id ∷ [] else rest

  -- accountIDsFromSlots
  unfoldable pub account_ids_from_slots : List ℤ → List String
  unfolding slot_account
  account_ids_from_slots [] = []
  account_ids_from_slots (s ∷ ss) = slot_account s b.idn.participants ++ account_ids_from_slots ss

  abbrev pub side_of : Option String → String
  side_of none = ""
  side_of (some a) = or_empty (lookup a b.account_to_side)

  abbrev pub is_true : Option Bool → Bool
  is_true none = false
  is_true (some x) = x

  abbrev pub is_false : Option Bool → Bool
  is_false none = false
  is_false (some x) = not x

  abbrev pub when : Bool → String → List String
  when true s = s ∷ []
  when false s = []
