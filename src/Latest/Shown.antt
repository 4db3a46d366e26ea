-- ===== src/Latest/Shown.antt =====
-- What a snapshot of the projection shows of the updates before it.
use dota2_ob.Prelude.{
  ℕ, ◌+◌, ◌%◌, ◌<◌, ◌≡◌, ◌==◌, refl, ap, ◌∙◌, String, true, false, Option, none, some, List, [],
  ◌∷◌, lookup, lookup-insert, str_eq, if◌then◌else◌, if_first, if_else, length, arith, inl, inr,
  Bool-cases, sym,
}
use dota2_ob.Prelude.Time.{Time, u64_mod}
use dota2_ob.Latest.{
  AnyOps, Latest, Snapshot, new_latest, known_sections, clone, or_nil, put_section, project_all,
  project_object, project_sections, update, snapshot, unmarshalled,
}

module _ {J : Type 0} (any : AnyOps J) where
  -- One key of the loop, with no other key in sight.
  abbrev project_key : String → List String → List (String × J) → Option J → Option J
  project_key k [] object o = o
  project_key k (section ∷ sections) object o = project_key k sections object (
      if str_eq section k
      then (elim (lookup section object) [ none ↦ o | some v ↦ some (clone any v) ])
      else o)

  lookup-put_section :
      (k section : String) (v : Option J) (projected : List (String × J))
      → lookup k (put_section any section v projected) ≡ (
          if str_eq section k
          then (elim v [ none ↦ lookup k projected | some v ↦ some (clone any v) ])
          else lookup k projected)
  lookup-put_section k section none projected = ground arith
  lookup-put_section k section (some v) projected = lookup-insert section k (clone any v) projected

  lookup-project_all :
      (k : String) (sections : List String) (object projected : List (String × J))
      → lookup k (project_all any sections object projected)
        ≡ project_key k sections object (lookup k projected)
  unfolding project_all
  lookup-project_all k [] object projected = refl
  lookup-project_all k (section ∷ sections) object projected =
      lookup-project_all k sections object
        (put_section any section (lookup section object) projected)
      ∙ ap (project_key k sections object)
          (lookup-put_section k section (lookup section object) projected)

  -- What encoding/json makes of a value that it writes and reads back.
  abbrev pub round_trip : J → Option J
  round_trip v = elim (any.marshal v) [ none ↦ none | some bytes ↦ any.unmarshal bytes ]

  -- The documented behaviour of `any` and encoding/json: nil is the one nil value, and a value that
  -- was read back is written and read back as itself.
  pub record AnyLaws : Type 0 where
    pub nil_is_nil : any.is_nil any.nil ≡ true
    pub nil_alone : (v : J) → any.is_nil v ≡ true → v ≡ any.nil
    pub stable : (v w : J) → round_trip v ≡ some w → any.is_nil w ≡ false → round_trip w ≡ some w

  -- What is to be seen of a section: what JSON makes of the value that the payload has there, and nil
  -- for a section it has not, for nil, and for a value that cannot be written or read back.
  abbrev pub shown_value : Option J → J
  shown_value none = any.nil
  shown_value (some v) =
      if any.is_nil v then any.nil else (elim (round_trip v) [ none ↦ any.nil | some w ↦ w ])

  abbrev pub shown : String → Option (List (String × J)) → J
  shown section none = any.nil
  shown section (some object) = shown_value (lookup section object)

  abbrev pub updates : List (Time × J) → Latest J → Latest J
  updates [] l = l
  updates ((at, payload) ∷ us) l = updates us (update any at payload l)

  abbrev cloned : Option J → Option J
  cloned none = none
  cloned (some v) = some (clone any v)

  clone-nil : AnyLaws → clone any any.nil ≡ any.nil
  unfolding clone
  clone-nil laws = if_first (any.is_nil any.nil) _ _ laws.nil_is_nil

  unmarshalled-bind :
      (m : Option (List ℕ))
      → unmarshalled any m ≡ or_nil any (elim m [ none ↦ none | some bytes ↦ any.unmarshal bytes ])
  unmarshalled-bind none = refl
  unmarshalled-bind (some bytes) = refl

  clone_lem : (v : J) → any.is_nil v ≡ false → clone any v ≡ or_nil any (round_trip v)
  unfolding clone
  clone_lem v is_value = if_else (any.is_nil v) _ _ is_value ∙ unmarshalled-bind (any.marshal v)

  clone_stable : AnyLaws → (v w : J) → round_trip v ≡ some w → clone any w ≡ w
  clone_stable laws v w e = elim (Bool-cases (any.is_nil w)) [
    | inl nothing ↦
        ap (clone any) (laws.nil_alone w nothing) ∙ clone-nil laws ∙ sym (laws.nil_alone w nothing)
    | inr is_value ↦ clone_lem w is_value ∙ ap (or_nil any) (laws.stable v w e is_value)
  ]

  clone-or_nil :
      AnyLaws → (v : J) (o : Option J) → round_trip v ≡ o → clone any (or_nil any o) ≡ or_nil any o
  clone-or_nil laws v none e = clone-nil laws
  clone-or_nil laws v (some w) e = clone_stable laws v w e

  clone-clone : AnyLaws → (v : J) → clone any (clone any v) ≡ shown_value (some v)
  unfolding clone
  clone-clone laws v = elim (Bool-cases (any.is_nil v)) [
    | inl nothing ↦
        ap (clone any) (if_first (any.is_nil v) _ _ nothing)
        ∙ clone-nil laws
        ∙ sym (if_first (any.is_nil v) _ _ nothing)
    | inr is_value ↦
        ap (clone any) (clone_lem v is_value)
        ∙ clone-or_nil laws v (round_trip v) refl
        ∙ sym (if_else (any.is_nil v) any.nil (or_nil any (round_trip v)) is_value)
  ]

  shown_cloned : AnyLaws → (v : Option J) → clone any (or_nil any (cloned v)) ≡ shown_value v
  shown_cloned laws none = clone-nil laws
  shown_cloned laws (some v) = clone-clone laws v

  section_shown :
      (k : String) (object : Option (List (String × J)))
      → AnyLaws
      → ((o : List (String × J)) → project_key k known_sections o none ≡ cloned (lookup k o))
      → clone any (or_nil any (lookup k (project_object any object))) ≡ shown k object
  unfolding lookup
  section_shown k none laws h = clone-nil laws
  section_shown k (some o) laws h =
      ap (λ v. clone any (or_nil any v)) (lookup-project_all k known_sections o [] ∙ h o)
      ∙ shown_cloned laws (lookup k o)

  count-updates :
      (us : List (Time × J)) (l : Latest J)
      → l.snapshot_count < u64_mod
      → (updates us l).snapshot_count ≡ (l.snapshot_count + length us) % u64_mod
  unfolding update
  count-updates [] l h = omega arith
  count-updates ((at, payload) ∷ us) l h =
      omega (arith, count-updates us (update any at payload l) (omega arith))

  -- The snapshot of what `payload` shows, as the `n`-th one.
  abbrev pub shown_snapshot : String → Time → ℕ → J → Snapshot J
  shown_snapshot id at n payload = record {
    status = "ok";
    session_id = id;
    received_at = some at;
    snapshot_count = n;
    provider = shown "provider" (any.as_object payload);
    map = shown "map" (any.as_object payload);
    player = shown "player" (any.as_object payload);
    hero = shown "hero" (any.as_object payload);
    items = shown "items" (any.as_object payload);
    abilities = shown "abilities" (any.as_object payload);
    buildings = shown "buildings" (any.as_object payload);
    draft = shown "draft" (any.as_object payload);
  }

  snapshot-update :
      (id : String) (at : Time) (payload : J) (l : Latest J)
      → AnyLaws
      → (((l.snapshot_count + 1) % u64_mod) == 0) ≡ false
      → snapshot any id (update any at payload l)
        ≡ shown_snapshot id at ((l.snapshot_count + 1) % u64_mod) payload
  unfolding snapshot update project_sections
  snapshot-update id at payload l law more =
      if_else (((l.snapshot_count + 1) % u64_mod) == 0) _ _ more
      ∙ rw (section_shown "provider" (any.as_object payload) law (λ o. refl)) (
          rw (section_shown "map" (any.as_object payload) law (λ o. refl)) (
            rw (section_shown "player" (any.as_object payload) law (λ o. refl)) (
              rw (section_shown "hero" (any.as_object payload) law (λ o. refl)) (
                rw (section_shown "items" (any.as_object payload) law (λ o. refl)) (
                  rw (section_shown "abilities" (any.as_object payload) law (λ o. refl)) (
                    rw (section_shown "buildings" (any.as_object payload) law (λ o. refl)) (
                      rw (section_shown "draft" (any.as_object payload) law (λ o. refl)) refl)))))))

  -- After any updates of a new projection, fewer than 2^64, a snapshot shows the time of the last
  -- one, how many there were, and of each section what JSON makes of its value in the last payload
  -- alone: nil if the payload is no object, or the value is missing, nil, or cannot be written and
  -- read back. It is assumed that nil is the one nil value, and that a value read back is written
  -- and read back as itself.
  pub snapshot-updates :
      (us : List (Time × J)) (at : Time) (payload : J) (id : String)
      → AnyLaws
      → length us + 1 < u64_mod
      → snapshot any id (update any at payload (updates us new_latest))
        ≡ shown_snapshot id at (length us + 1) payload
  unfolding new_latest
  snapshot-updates us at payload id law few =
      let counted : (updates us new_latest).snapshot_count ≡ length us =
        count-updates us new_latest (omega arith) ∙ omega arith in
      let next : ((updates us new_latest).snapshot_count + 1) % u64_mod ≡ length us + 1 =
        omega arith in
      snapshot-update id at payload (updates us new_latest) law (ground arith)
      ∙ ap (λ n. shown_snapshot id at n payload) next
