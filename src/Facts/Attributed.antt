-- ===== src/Facts/Attributed.antt =====
-- The accounts that the facts of combat-log entries name.
use mathlib.Core.Path.{subst}
use mathlib.Core.List.{Memᴰ}
use mathlib.Core.Option.{none-ne-some, some-injective}
use dota2_ob.Prelude.{
  ◌≡◌, refl, sym, ap, ◌∙◌, ◌⊎◌, inl, inr, Bool-cases, String, Bool, true, false, ◌||◌, Option, none,
  some, List, [], ◌∷◌, All, All-append, lookup, lookup-insert, str_eq, eq_iff, if◌then◌else◌,
  if_first, if_else,
}
use dota2_ob.Prelude.Int.{ℤ, eqb_ℤ}
use dota2_ob.Clock.{Clock}
use dota2_ob.Raw.{Combat}
use dota2_ob.Archive.{Match, ExpectedPlayer}
use dota2_ob.Raw.Summaries.{Summary}
use dota2_ob.Identity.{Identity, state_verified, build as build_identity}
use dota2_ob.Identity.Participants.{Participant}
use dota2_ob.Identity.Binding.{IsExpected}
use dota2_ob.Identity.Verified.{build-IsVerified}
use dota2_ob.Facts.Payloads.{Payload}
use dota2_ob.Facts.Accounts.{
  Builder, new_builder, add_participant, add_participants, player_ref, or_empty, account_or_empty,
  slot_account, account_ids_from_slots,
}
use dota2_ob.Facts.Drafts.{
  new_combat_fact, fact_combat, fact_death, fact_buyback, fact_economy, fact_item_purchase,
  fact_item_use, fact_ability, fact_modifier, fact_objective, combat_draft, economy_hero,
}

-- The accounts in a payload.
unfoldable pub accounts : {N : Type 0} → Payload N → List String
accounts (Payload.match_state m) = []
accounts (Payload.participant p) = p.account_id ∷ []
accounts (Payload.hero_state h) = h.account_id ∷ []
accounts (Payload.economy e) = e.account_id ∷ []
accounts (Payload.combat c) = c.actor_account ∷ c.target_account ∷ c.assist_players
accounts (Payload.objective o) = o.actor_account ∷ o.attackers
accounts (Payload.death d) = d.account_id ∷ d.killer_account ∷ d.assist_accounts
accounts (Payload.item i) = i.account_id ∷ []
accounts (Payload.ability a) = a.account_id ∷ a.target_account ∷ []
accounts (Payload.modifier m) = m.account_id ∷ m.source_account ∷ []

-- No account, or that of a participant.
abbrev pub IsAccount : List Participant → String → Type 0
IsAccount ps a = (a ≡ "") ⊎ ((p : Participant) × Memᴰ p ps × (p.account_id ≡ a))

-- The participant that plays a hero.
abbrev Plays : List Participant → String → String → Type 0
Plays ps name a = (p : Participant) × Memᴰ p ps × (p.hero_name ≡ name) × (p.account_id ≡ a)

played :
    {N : Type 0} (name a : String) (ps : List Participant) (b : Builder N)
    → player_ref (add_participants ps b) name ≡ some a
    → Plays ps name a ⊎ (player_ref b name ≡ some a)
unfolding add_participants add_participant player_ref
played name a [] b h = inr h
played name a (p ∷ ps) b h = elim (played name a ps (add_participant p b) h) [
  | inl later ↦ inl (later.0, Memᴰ.tail later.1, later.2, later.3)
  | inr before ↦
      let here = lookup-insert p.hero_name name p.account_id b.hero_name_to_account in
      elim (Bool-cases (str_eq p.hero_name name)) [
        | inl same ↦ inl (
          p,
          Memᴰ.head refl,
          (eq_iff p.hero_name name).0 same,
          some-injective p.account_id a
              (sym (here ∙ if_first (str_eq p.hero_name name) _ _ same) ∙ before),
        )
        | inr other ↦ inr (sym (here ∙ if_else (str_eq p.hero_name name) _ _ other) ∙ before)
      ]
]

kept_identity :
    {N : Type 0} (ps : List Participant) (b : Builder N) → (add_participants ps b).idn ≡ b.idn
unfolding add_participants add_participant
kept_identity [] b = refl
kept_identity (p ∷ ps) b = kept_identity ps (add_participant p b)

longer :
    (p : Participant) (ps : List Participant) (names : List String)
    → All (IsAccount ps) names
    → All (IsAccount (p ∷ ps)) names
longer p ps [] h = tt
longer p ps (a ∷ names) h =
    (elim h.0 [ inl e ↦ inl e | inr q ↦ inr (q.0, Memᴰ.tail q.1, q.2) ], longer p ps names h.1)

if_All :
    (P : String → Type 0) (t : Bool) (xs ys : List String)
    → All P xs
    → All P ys
    → All P (if t then xs else ys)
if_All P true xs ys h k = h
if_All P false xs ys h k = k

module _ {N : Type 0} (clk : Clock N) (idn : Identity) where
  -- A name resolves to an account only if a participant with that account plays that hero.
  pub player_ref_sound :
      (name a : String)
      → player_ref (new_builder clk idn) name ≡ some a
      → Plays idn.participants name a
  unfolding new_builder player_ref lookup
  player_ref_sound name a h = elim (played name a idn.participants _ h) [
    | inl found ↦ found
    | inr before ↦ absurd (none-ne-some a before)
  ]

  resolved :
      (name : String) (o : Option String)
      → player_ref (new_builder clk idn) name ≡ o
      → IsAccount idn.participants (or_empty o)
  resolved name none e = inl refl
  resolved name (some a) e =
      let (p, listed, _, account) = player_ref_sound name a e in inr (p, listed, account)

  account_or_empty-IsAccount :
      (name : String) → IsAccount idn.participants (account_or_empty (new_builder clk idn) name)
  account_or_empty-IsAccount name = of_test (str_eq name "")
    where
      of_test :
          (t : Bool)
          → IsAccount idn.participants
              (if t then "" else or_empty (player_ref (new_builder clk idn) name))
      of_test true = inl refl
      of_test false = resolved name (player_ref (new_builder clk idn) name) refl

  slot_account-IsAccount :
      (s : ℤ) (ps : List Participant) → All (IsAccount ps) (slot_account (new_builder clk idn) s ps)
  unfolding slot_account
  slot_account-IsAccount s [] = tt
  slot_account-IsAccount s (p ∷ ps) =
      if_All (IsAccount (p ∷ ps)) (eqb_ℤ p.slot s) (p.account_id ∷ []) _
        (inr (p, Memᴰ.head refl, refl), tt) (longer p ps _ (slot_account-IsAccount s ps))

  account_ids_from_slots-IsAccount :
      (ss : List ℤ)
      → All (IsAccount idn.participants) (account_ids_from_slots (new_builder clk idn) ss)
  unfolding account_ids_from_slots new_builder
  account_ids_from_slots-IsAccount [] = tt
  account_ids_from_slots-IsAccount (s ∷ ss) =
      All-append (IsAccount idn.participants) _ _
        (subst
          (λ (i : Identity).
            All (IsAccount idn.participants) (slot_account (new_builder clk idn) s i.participants))
          (sym (kept_identity idn.participants _)) (slot_account-IsAccount s idn.participants))
        (account_ids_from_slots-IsAccount ss)

  -- Every account is resolved by a name, or by the slots.
  abbrev Attributes : Payload N → Type 0
  Attributes p = All (IsAccount idn.participants) (accounts p)

  abbrev DraftAttributes : Option (String × Payload N) → Type 0
  DraftAttributes none = Unit
  DraftAttributes (some (family, p)) = Attributes p

  if_Attributes :
      (t : Bool) (o r : Option (String × Payload N))
      → DraftAttributes o
      → DraftAttributes r
      → DraftAttributes (if t then o else r)
  if_Attributes true o r h k = h
  if_Attributes false o r h k = k

  combat_draft-Attributes : (c : Combat N) → DraftAttributes (combat_draft (new_builder clk idn) c)
  unfolding combat_draft accounts fact_combat new_combat_fact fact_death fact_buyback fact_economy
      fact_item_purchase fact_item_use fact_ability fact_modifier fact_objective
  combat_draft-Attributes c =
      let attacker = account_or_empty-IsAccount c.attacker_name in
      let target = account_or_empty-IsAccount c.target_name in
      let assists = account_ids_from_slots-IsAccount c.assist_players in
      if_Attributes (str_eq c.type "DOTA_COMBATLOG_DEATH") _ _ (target, (attacker, assists))
        (if_Attributes (str_eq c.type "DOTA_COMBATLOG_BUYBACK") _ _ (attacker, (inl refl, tt))
          (if_Attributes (str_eq c.type "DOTA_COMBATLOG_GOLD" || str_eq c.type "DOTA_COMBATLOG_XP")
            _ _ (account_or_empty-IsAccount (economy_hero (new_builder clk idn) c), tt)
            (if_Attributes (str_eq c.type "DOTA_COMBATLOG_PURCHASE") _ _ (target, tt)
              (if_Attributes (str_eq c.type "DOTA_COMBATLOG_ITEM") _ _ (attacker, tt)
                (if_Attributes (str_eq c.type "DOTA_COMBATLOG_ABILITY") _ _ (attacker, (target, tt))
                  (if_Attributes
                    (str_eq c.type "DOTA_COMBATLOG_MODIFIER_ADD"
                      || str_eq c.type "DOTA_COMBATLOG_MODIFIER_REMOVE"
                      || str_eq c.type "DOTA_COMBATLOG_MODIFIER_STACK_EVENT")
                    _ _ (target, (attacker, tt))
                    (if_Attributes (str_eq c.type "DOTA_COMBATLOG_TEAM_BUILDING_KILL") _ _
                      (attacker, assists)
                      (if_Attributes
                        (str_eq c.type "DOTA_COMBATLOG_DAMAGE"
                          || str_eq c.type "DOTA_COMBATLOG_HEAL")
                        _ _ (attacker, (target, assists)) tt))))))))

-- No account, or one that the manifest lists.
abbrev pub IsListed : List ExpectedPlayer → String → Type 0
IsListed players a = (a ≡ "") ⊎ ((e : ExpectedPlayer) × Memᴰ e players × (e.account_id ≡ a))

expected_account :
    (hero_id_of : String → Option ℤ) (players : List ExpectedPlayer) (p : Participant)
    (ps : List Participant)
    → All (IsExpected hero_id_of players) ps
    → Memᴰ p ps
    → (e : ExpectedPlayer) × Memᴰ e players × (e.account_id ≡ p.account_id)
expected_account hero_id_of players p [] h m = elim m [ ]
expected_account hero_id_of players p (q ∷ ps) h (Memᴰ.head same) =
    (h.0.entry, h.0.listed, h.0.account ∙ ap (λ (r : Participant). r.account_id) (sym same))
expected_account hero_id_of players p (q ∷ ps) h (Memᴰ.tail m) =
    expected_account hero_id_of players p ps h.1 m

all-IsListed :
    (hero_id_of : String → Option ℤ) (players : List ExpectedPlayer) (ps : List Participant)
    → All (IsExpected hero_id_of players) ps
    → (names : List String) → All (IsAccount ps) names
    → All (IsListed players) names
all-IsListed hero_id_of players ps h [] k = tt
all-IsListed hero_id_of players ps h (a ∷ names) k = (
  elim k.0 [
    | inl e ↦ inl e
    | inr (p, m, account) ↦
        let (e, listed, same) = expected_account hero_id_of players p ps h m in
        inr (e, listed, same ∙ account)
  ],
  all-IsListed hero_id_of players ps h names k.1,
)

-- In a match whose identity Build verified, every account that the fact of a combat-log entry names,
-- as its actor, its target or an attacker or assistant, is empty or the account of a player that the
-- manifest expects in that match.
pub combat_draft_verified :
    {N : Type 0} (hero_id_of : String → Option ℤ) (s : Summary N) (mt : Match) (clk : Clock N)
    (c : Combat N) (family : String) (p : Payload N)
    → (build_identity hero_id_of s mt).state ≡ state_verified
    → combat_draft (new_builder clk (build_identity hero_id_of s mt)) c ≡ some (family, p)
    → All (IsListed mt.expected_participants) (accounts p)
combat_draft_verified hero_id_of s mt clk c family p verified made =
    let idn = build_identity hero_id_of s mt in
    let (_, known) = build-IsVerified hero_id_of s mt verified in
    all-IsListed hero_id_of mt.expected_participants idn.participants known.participants.expected
      (accounts p) (subst (DraftAttributes clk idn) made (combat_draft-Attributes clk idn c))
