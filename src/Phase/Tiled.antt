-- ===== src/Phase/Tiled.antt =====
-- An engine whose intervals tile the time so far, and a second that is finalized.
use mathlib.Core.Path.{subst}
use dota2_ob.Prelude.{
  ◌≡◌, refl, sym, ap, ◌∙◌, ◌⊎◌, inl, inr, Bool-cases, Bool, true, false, some, arith, if◌then◌else◌,
  if_first,
}
use dota2_ob.Prelude.Int.{ℤ, pos, ◌+ℤ◌, ◌≤ℤ◌, ◌<ℤ◌, ltb_ℤ, leb_ℤ, int_laws}
use dota2_ob.Phase.{official, Engine, new_engine}
use dota2_ob.Phase.Steps.{finalize_second, ended_by}
use dota2_ob.Phase.Tiling.{Chain, Running}
use dota2_ob.Phase.Finalize.{finalize_second_lem}

-- A second, or 0 where there was none yet.
abbrev pub floor : ℤ → ℤ
floor z = if ltb_ℤ z (pos 0) then pos 0 else z

module _ {N : Type 0} where
  abbrev pub Closed : Engine N → Type 0
  Closed e = (e.has_ended ≡ true) × ((m : ℤ) × Chain (pos 0) e.intervals m)

  -- Whether it runs, no later than `b`, or has ended, the engine's intervals tile the time from 0.
  abbrev pub TiledBy : ℤ → Engine N → Type 0
  TiledBy b e = Running b e ⊎ Closed e

  abbrev pub Tiled : Engine N → Type 0
  Tiled e = TiledBy (floor e.last_second) e

  pub TiledBy-mono : (b c : ℤ) (e : Engine N) → b ≤ℤ c → TiledBy b e → TiledBy c e
  TiledBy-mono b c e h (inl r) = inl (record {
    chain = r.chain;
    from_zero = r.from_zero;
    bounded = omega (arith, r.bounded);
    phase = r.phase;
    going = r.going;
  })
  TiledBy-mono b c e h (inr o) = inr o

  -- The fields on which the tiling depends.
  pub record SameCourse (e e' : Engine N) : Type 0 where
    pub intervals : e'.intervals ≡ e.intervals
    pub start : e'.current_start ≡ e.current_start
    pub current : e'.current ≡ e.current
    pub over : e'.has_ended ≡ e.has_ended

  pub SameCourse-TiledBy : (b : ℤ) (e e' : Engine N) → SameCourse e e' → TiledBy b e → TiledBy b e'
  SameCourse-TiledBy b e e' h (inl r) = inl (record {
    chain = rw (h.intervals, h.start) r.chain;
    from_zero = rw h.start r.from_zero;
    bounded = rw h.start r.bounded;
    phase = rw h.current r.phase;
    going = rw h.over r.going;
  })
  SameCourse-TiledBy b e e' h (inr (over, (m, c))) = inr (h.over ∙ over, (m, rw h.intervals c))

  pub with_last-TiledBy :
      (b s : ℤ) (e : Engine N) → TiledBy b e → TiledBy b (record e { last_second = s })
  with_last-TiledBy b s e =
      SameCourse-TiledBy b e (record e { last_second = s })
        (record { intervals = refl; start = refl; current = refl; over = refl })

  pub new_engine-Tiled : (n : ℤ) → Tiled (new_engine {N = N} n)
  unfolding new_engine official
  new_engine-Tiled n = inl (record {
    chain = refl;
    from_zero = omega arith;
    bounded = omega arith;
    phase = refl;
    going = refl;
  })

if_second :
    {A : Type 0} (b c : Bool) (x z : A) → c ≡ true → (if b then x else if c then x else z) ≡ x
if_second true c x z h = refl
if_second false c x z h = rw h

floor_least : (a b : ℤ) → a <ℤ pos 0 → floor a ≤ℤ floor b
floor_least a b h = ground arith

before_floor : (s d : ℤ) → leb_ℤ d s ≡ false → s ≤ℤ floor d
before_floor s d h = ground arith

pub floor_late : (s : ℤ) → pos 0 ≤ℤ s → floor s ≡ s
floor_late s h = ground arith

pub floor-mono : (a b : ℤ) → a ≤ℤ b → floor a ≤ℤ floor b
floor-mono a b h = ground arith

module _ {N : Type 0} (num_lt : N → N → Bool) (one : N) where
  pub finalize_second-early :
      (s : ℤ) (e : Engine N) → ltb_ℤ s (pos 0) ≡ true → finalize_second num_lt one s e ≡ e
  unfolding finalize_second
  finalize_second-early s e h = if_second e.has_ended (ltb_ℤ s (pos 0)) e _ h

  pub finalize_second-ended :
      (s : ℤ) (e : Engine N) → e.has_ended ≡ true → finalize_second num_lt one s e ≡ e
  unfolding finalize_second
  finalize_second-ended s e h = if_first e.has_ended e _ h

  pub finalize_second-TiledBy :
      (s : ℤ) (e : Engine N)
      → TiledBy (floor s) e
      → TiledBy (floor s) (finalize_second num_lt one s e)
  finalize_second-TiledBy s e (inr (over, c)) =
      subst (TiledBy (floor s)) (sym (finalize_second-ended s e over)) (inr (over, c))
  finalize_second-TiledBy s e (inl r) = elim (Bool-cases (ltb_ℤ s (pos 0))) [
    | inl early ↦ subst (TiledBy (floor s)) (sym (finalize_second-early s e early)) (inl r)
    | inr late ↦
        let at_s : floor s ≡ s = floor_late s (omega int_laws) in
        elim (finalize_second_lem num_lt one s e (omega int_laws)
          (subst (λ z. Running z e) at_s r)).1 [
            | inl goes ↦
                inl (subst (λ z. Running z (finalize_second num_lt one s e)) (sym at_s) goes.0)
            | inr ends ↦ inr (ends.0, (s +ℤ pos 1, ends.1))
          ]
  ]

  -- A second that has reached a death of the ancient ends the engine.
  pub finalize_second-past :
      (s d : ℤ) (e : Engine N)
      → e.ancient_death_second ≡ some d
      → TiledBy (floor s) e
      → TiledBy (floor d) (finalize_second num_lt one s e)
  finalize_second-past s d e a (inr (over, c)) =
      subst (TiledBy (floor d)) (sym (finalize_second-ended s e over)) (inr (over, c))
  finalize_second-past s d e a (inl r) = elim (Bool-cases (ltb_ℤ s (pos 0))) [
    | inl early ↦
        TiledBy-mono (floor s) (floor d) (finalize_second num_lt one s e)
          (floor_least s d (omega int_laws)) (finalize_second-TiledBy s e (inl r))
    | inr late ↦
        let at_s : floor s ≡ s = floor_late s (omega int_laws) in
        elim (finalize_second_lem num_lt one s e (omega int_laws)
          (subst (λ z. Running z e) at_s r)).1 [
            | inl goes ↦
                TiledBy-mono s (floor d) (finalize_second num_lt one s e)
                  (before_floor s d (ap (ended_by num_lt one s) (sym a) ∙ goes.1)) (inl goes.0)
            | inr ends ↦ inr (ends.0, (s +ℤ pos 1, ends.1))
          ]
  ]
