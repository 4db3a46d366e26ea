-- ===== src/Facts/Samples.antt =====
-- The samples of the heroes in Build of internal/replay/facts/facts.go, one in a half second.
use dota2_ob.Prelude.{
  ℕ, String, Bool, false, ◌&&◌, Option, none, some, List, [], ◌∷◌, ◌++◌, if◌then◌else◌, is_some,
  lookup, insert,
}
use dota2_ob.Prelude.Int.{ℤ, pos, ◌+ℤ◌, ltb_ℤ}
use dota2_ob.Clock.{FloatOps, game_second_of_tick}
use dota2_ob.Raw.{HeroState}
use dota2_ob.Facts.Payloads.{Payload, family_hero_state}
use dota2_ob.Facts.Accounts.{Builder, account_for_class, or_empty}
use dota2_ob.Facts.Numbering.{gap_or_zero, hero_name_for, Work, add_missing, emit_fact}

module _ {N : Type 0} (f : FloatOps N) (marshal : Payload N → Option (List ℕ)) (b : Builder N) where
  -- mathRoundHalf
  unfoldable pub math_round_half : N → N
  math_round_half x = f.div (f.of_int (f.to_int (f.mul x f.two))) f.two

  abbrev pub max_f : N → N → N
  max_f x y = if f.lt y x then x else y

  abbrev pub min_f : N → N → N
  min_f x y = if f.lt x y then x else y

  abbrev pub sample_payload : String → HeroState N → Payload N
  sample_payload account h = Payload.hero_state (record {
    account_id = account;
    hero_name = hero_name_for account b.hero_name_to_account;
    side = or_empty (lookup account b.account_to_side);
    pos_x = h.pos_x;
    pos_y = h.pos_y;
    pos_z = h.pos_z;
    health = h.health;
    max_health = h.max_health;
    level = h.level;
    xp = h.xp;
    alive = h.alive;
    respawn_remaining = h.respawn_time;
    missing =
        (if is_some h.pos_x && is_some h.pos_y then [] else "position" ∷ [])
        ++ (if is_some h.health then [] else "health" ∷ []);
  })

  -- Whether the account has a sample in this half-second bin.
  abbrev pub throttled : N → Option N → Bool
  throttled bin none = false
  throttled bin (some last) = f.lt (f.sub bin last) f.half

  -- The gap since the second in which the account was seen, if it is positive.
  abbrev pub add_gap : String → N → Option N → List (String × ℤ) → List (String × ℤ)
  add_gap account bin none gaps = gaps
  add_gap account bin (some prev) gaps =
      let gap = f.to_int (f.sub (f.sub bin prev) f.half) in
      if f.lt prev bin && ltb_ℤ (pos 0) gap
      then insert account (gap_or_zero (lookup account gaps) +ℤ gap) gaps
      else gaps

  -- A sample of a bound account at the game second `gs`, in its bin.
  abbrev pub sample_at : String → HeroState N → N → N → Work N → Work N
  sample_at account h gs bin w =
      let w' : Work N = record w { last_emit = insert account bin w.last_emit } in
      let w'' : Work N =
        emit_fact f marshal b family_hero_state gs h.tick (sample_payload account h) w' in
      record w'' {
        position_gaps = add_gap account bin (lookup account w''.last_seen_second) w''.position_gaps;
        last_seen_second = insert account bin w''.last_seen_second;
      }

  unfoldable pub sample_hero : String → HeroState N → N → Work N → Work N
  unfolding emit_fact math_round_half hero_name_for lookup insert ◌+ℤ◌
  sample_hero account h gs w =
      let bin : N = math_round_half gs in
      if f.lt bin f.zero
      then record w { last_seen_second = insert account bin w.last_seen_second }
      else if throttled bin (lookup account w.last_emit)
      then w
      else sample_at account h gs bin w

  abbrev pub known_hero : HeroState N → N → Option String → Work N → Work N
  known_hero h gs none w = record w { counts = add_missing family_hero_state w.counts }
  known_hero h gs (some account) w = sample_hero account h gs w

  unfoldable pub on_hero_state : HeroState N → Work N → Work N
  unfolding account_for_class sample_hero add_missing
  on_hero_state h w =
      let gs : N = game_second_of_tick f b.clk h.tick in
      known_hero h gs (account_for_class b h.class) (record w {
        game_second_max = max_f w.game_second_max gs;
        game_second_min = min_f w.game_second_min gs;
      })
