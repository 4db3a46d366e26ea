-- ===== src/Facts/Kept.antt =====
-- The numbers of the facts and the counts of their families, through the steps that hand over a fact.
use mathlib.Core.Path.{subst}
use dota2_ob.Prelude.{
  ℕ, ◌+◌, ◌≡◌, refl, sym, ap, ◌∙◌, String, Bool, true, false, Option, none, some, List, [], ◌∷◌,
  ◌++◌, length, length-append, lookup, lookup-insert, str_eq, eq_iff, if◌then◌else◌, arith,
}
use dota2_ob.Prelude.Int.{ℤ, pos}
use dota2_ob.Clock.{FloatOps, game_second_of_tick}
use dota2_ob.Raw.{HeroState}
use dota2_ob.Identity.Participants.{Participant}
use dota2_ob.Facts.Numbering.{
  Work, fresh_coverage, coverage_or, init_count, add_count, add_missing, hand_over, emit_bytes,
  emit_fact, emit_participants, empty_work, preamble,
}
use dota2_ob.Facts.Samples.{math_round_half, throttled, sample_hero, known_hero, on_hero_state}
use dota2_ob.Facts.Payloads.{Fact, Coverage, Payload}
use dota2_ob.Facts.Accounts.{Builder, account_for_class}

-- The facts of a family in a list.
pub occurrences : {N : Type 0} → String → List (Fact N) → ℕ
occurrences family [] = 0
occurrences family (x ∷ xs) = (if str_eq x.family family then 1 else 0) + occurrences family xs

-- The facts are numbered without a gap, after `n`.
abbrev pub Numbered : {N : Type 0} → ℕ → List (Fact N) → Type 0
Numbered n [] = Unit
Numbered n (x ∷ xs) = (x.seq ≡ n + 1) × Numbered (n + 1) xs

pub record IsCounted {N : Type 0} (w : Work N) : Type 0 where
  pub last : w.seq ≡ length w.emitted
  pub numbered : Numbered 0 w.emitted
  pub counted :
      (family : String) → (init_count family w.counts).count ≡ occurrences family w.emitted
  pub named : (family : String) → (init_count family w.counts).family ≡ family

occurrences-append :
    {N : Type 0} (family : String) (xs : List (Fact N)) (x : Fact N)
    → occurrences family (xs ++ x ∷ [])
      ≡ occurrences family xs + (if str_eq x.family family then 1 else 0)
unfolding occurrences
occurrences-append family [] x = omega arith
occurrences-append family (y ∷ ys) x = omega (arith, occurrences-append family ys x)

Numbered-append :
    {N : Type 0} (n : ℕ) (xs : List (Fact N)) (x : Fact N)
    → Numbered n xs
    → x.seq ≡ n + length xs + 1
    → Numbered n (xs ++ x ∷ [])
Numbered-append n [] x h e = (omega arith, tt)
Numbered-append n (y ∷ ys) x h e = (h.0, Numbered-append (n + 1) ys x h.1 (omega arith))

add_count_lem :
    (g family : String) (counts : List (String × Coverage))
    → (init_count family (add_count g counts)).count
      ≡ (init_count family counts).count + (if str_eq g family then 1 else 0)
unfolding add_count init_count
add_count_lem g family counts =
    let c : Coverage = coverage_or (fresh_coverage g) (lookup g counts) in
    ground
      (arith, lookup-insert g family (record c { count = c.count + 1 }) counts, eq_iff g family)

add_count-named :
    (g family : String) (counts : List (String × Coverage))
    → (init_count g counts).family ≡ g
    → (init_count family counts).family ≡ family
    → (init_count family (add_count g counts)).family ≡ family
unfolding add_count init_count
add_count-named g family counts h k =
    let c : Coverage = coverage_or (fresh_coverage g) (lookup g counts) in
    ground
      (arith, lookup-insert g family (record c { count = c.count + 1 }) counts, eq_iff g family)

add_missing_lem :
    (g family : String) (counts : List (String × Coverage))
    → (init_count family (add_missing g counts)).count ≡ (init_count family counts).count
unfolding add_missing init_count
add_missing_lem g family counts =
    let c : Coverage = coverage_or (fresh_coverage g) (lookup g counts) in
    ground
      (arith, lookup-insert g family (record c { missing = c.missing + 1 }) counts, eq_iff g family)

add_missing-named :
    (g family : String) (counts : List (String × Coverage))
    → (init_count g counts).family ≡ g
    → (init_count family counts).family ≡ family
    → (init_count family (add_missing g counts)).family ≡ family
unfolding add_missing init_count
add_missing-named g family counts h k =
    let c : Coverage = coverage_or (fresh_coverage g) (lookup g counts) in
    ground
      (arith, lookup-insert g family (record c { missing = c.missing + 1 }) counts, eq_iff g family)

-- The other fields do not matter.
pub kept :
    {N : Type 0} (w v : Work N)
    → v.seq ≡ w.seq
    → v.counts ≡ w.counts
    → v.emitted ≡ w.emitted
    → IsCounted w
    → IsCounted v
kept w v p q r c = record {
  last = p ∙ c.last ∙ ap length (sym r);
  numbered = subst (Numbered 0) (sym r) c.numbered;
  counted = λ g. ap (λ m. (init_count g m).count) q ∙ c.counted g ∙ ap (occurrences g) (sym r);
  named = λ g. ap (λ m. (init_count g m).family) q ∙ c.named g;
}

missing-IsCounted :
    {N : Type 0} (g : String) (w : Work N)
    → IsCounted w
    → IsCounted (record w { counts = add_missing g w.counts })
missing-IsCounted g w c = record {
  last = c.last;
  numbered = c.numbered;
  counted = λ h. add_missing_lem g h w.counts ∙ c.counted h;
  named = λ h. add_missing-named g h w.counts (c.named g) (c.named h);
}

pub if_IsCounted :
    {N : Type 0} (t : Bool) (w v : Work N)
    → IsCounted w
    → IsCounted v
    → IsCounted (if t then w else v)
if_IsCounted true w v c d = c
if_IsCounted false w v c d = d

module _ {N : Type 0} (f : FloatOps N) (marshal : Payload N → Option (List ℕ)) (b : Builder N) where
  pub hand_over-IsCounted :
      (family : String) (gs : N) (tick : ℕ) (source : ℤ) (payload : Option (List ℕ)) (w : Work N)
      → IsCounted w
      → IsCounted (hand_over f marshal b family gs tick source payload w)
  unfolding hand_over
  hand_over-IsCounted family gs tick source payload w c = record {
    last = omega (arith, c.last, length-append w.emitted);
    numbered = Numbered-append 0 w.emitted _ c.numbered (omega (arith, c.last));
    counted = λ g.
        add_count_lem family g w.counts
        ∙ ap (λ n. n + (if str_eq family g then 1 else 0)) (c.counted g)
        ∙ sym (occurrences-append g w.emitted _);
    named = λ g. add_count-named family g w.counts (c.named family) (c.named g);
  }

  emit_bytes-IsCounted :
      (family : String) (gs : N) (tick : ℕ) (o : Option (List ℕ)) (w : Work N)
      → IsCounted w
      → IsCounted (emit_bytes f marshal b family gs tick o w)
  emit_bytes-IsCounted family gs tick none w c = c
  emit_bytes-IsCounted family gs tick (some bytes) w c =
      hand_over-IsCounted family gs tick (pos 0) (some bytes) w c

  emit_fact-IsCounted :
      (family : String) (gs : N) (tick : ℕ) (p : Payload N) (w : Work N)
      → IsCounted w
      → IsCounted (emit_fact f marshal b family gs tick p w)
  unfolding emit_fact
  emit_fact-IsCounted family gs tick p w c = emit_bytes-IsCounted family gs tick (marshal p) w c

  emit_participants-IsCounted :
      (ps : List Participant) (w : Work N)
      → IsCounted w
      → IsCounted (emit_participants f marshal b ps w)
  unfolding emit_participants
  emit_participants-IsCounted [] w c = c
  emit_participants-IsCounted (p ∷ ps) w c =
      emit_participants-IsCounted ps _
        (kept _ _ refl refl refl (emit_fact-IsCounted _ f.zero 0 _ w c))

  pub preamble-IsCounted : IsCounted (preamble f marshal b)
  unfolding preamble init_count lookup occurrences
  preamble-IsCounted = emit_participants-IsCounted b.idn.participants _ (
      emit_fact-IsCounted _ f.zero 0 _ (empty_work f marshal b)
        (record { last = refl; numbered = tt; counted = λ g. refl; named = λ g. refl }))

  sample_hero-IsCounted :
      (account : String) (h : HeroState N) (gs : N) (w : Work N)
      → IsCounted w
      → IsCounted (sample_hero f marshal b account h gs w)
  unfolding sample_hero
  sample_hero-IsCounted account h gs w c =
      if_IsCounted (f.lt (math_round_half f marshal b gs) f.zero) _ _ (kept w _ refl refl refl c) (
        if_IsCounted
          (throttled f marshal b (math_round_half f marshal b gs) (lookup account w.last_emit)) w _
          c
          (kept _ _ refl refl refl
            (emit_fact-IsCounted _ gs h.tick _ _ (kept w _ refl refl refl c))))

  pub on_hero_state-IsCounted :
      (h : HeroState N) (w : Work N) → IsCounted w → IsCounted (on_hero_state f marshal b h w)
  unfolding on_hero_state
  on_hero_state-IsCounted h w c = known (account_for_class b h.class) _ (kept w _ refl refl refl c)
    where
      known :
          (o : Option String) (v : Work N)
          → IsCounted v
          → IsCounted (known_hero f marshal b h (game_second_of_tick f b.clk h.tick) o v)
      known none v d = missing-IsCounted _ v d
      known (some account) v d = sample_hero-IsCounted account h _ v d
