-- ===== src/Latest.antt =====
-- internal/state/latest.go: the projection that keeps the sections of the last snapshot.
-- A value of type `any` is `J`; what the code asks of such values (the type assertion to a map, the
-- test for nil, and encoding/json's Marshal and Unmarshal) is the parameter `AnyOps`. A method under
-- the lock is one step.
pub mod Shown
mod Tests
use dota2_ob.Prelude.{
  ℕ, ◌+◌, ◌%◌, ◌==◌, String, Bool, true, false, Option, none, some, List, [], ◌∷◌, lookup, insert,
  if◌then◌else◌,
}
use dota2_ob.Prelude.Time.{Time, u64_mod}

pub record AnyOps (J : Type 0) : Type 0 where
  pub nil : J
  pub is_nil : J → Bool
  pub as_object : J → Option (List (String × J))
  pub marshal : J → Option (List ℕ)
  pub unmarshal : List ℕ → Option J

abbrev pub known_sections : List String
known_sections =
    "provider" ∷ "map" ∷ "player" ∷ "hero" ∷ "items" ∷ "abilities" ∷ "buildings" ∷ "draft" ∷ []

pub record Latest (J : Type 0) : Type 0 where
  pub received_at : Option Time
  pub snapshot_count : ℕ
  pub sections : List (String × J)

pub record Snapshot (J : Type 0) : Type 0 where
  pub status : String
  pub session_id : String
  pub received_at : Option Time
  pub snapshot_count : ℕ
  pub provider : J
  pub map : J
  pub player : J
  pub hero : J
  pub items : J
  pub abilities : J
  pub buildings : J
  pub draft : J

unfoldable pub new_latest : {J : Type 0} → Latest J
new_latest = record { received_at = none; snapshot_count = 0; sections = [] }

module _ {J : Type 0} (any : AnyOps J) where
  abbrev or_nil : Option J → J
  or_nil none = any.nil
  or_nil (some out) = out

  abbrev unmarshalled : Option (List ℕ) → J
  unmarshalled none = any.nil
  unmarshalled (some bytes) = or_nil (any.unmarshal bytes)

  unfoldable pub clone : J → J
  clone value = if any.is_nil value then any.nil else unmarshalled (any.marshal value)

  abbrev pub put_section : String → Option J → List (String × J) → List (String × J)
  put_section section none projected = projected
  put_section section (some value) projected = insert section (clone value) projected

  -- The loop over the known sections.
  unfoldable pub project_all :
      List String → List (String × J) → List (String × J) → List (String × J)
  project_all [] object projected = projected
  project_all (section ∷ sections) object projected =
      project_all sections object (put_section section (lookup section object) projected)

  abbrev pub project_object : Option (List (String × J)) → List (String × J)
  project_object none = []
  project_object (some object) = project_all known_sections object []

  unfoldable pub project_sections : J → List (String × J)
  unfolding project_all
  project_sections payload = project_object (any.as_object payload)

  unfoldable pub update : Time → J → Latest J → Latest J
  unfolding project_sections
  update received_at payload l = record {
    received_at = some received_at;
    snapshot_count = (l.snapshot_count + 1) % u64_mod;
    sections = project_sections payload;
  }

  abbrev pub empty_snapshot : String → Latest J → Snapshot J
  empty_snapshot session_id l = record {
    status = "empty";
    session_id = session_id;
    received_at = none;
    snapshot_count = l.snapshot_count;
    provider = any.nil;
    map = any.nil;
    player = any.nil;
    hero = any.nil;
    items = any.nil;
    abilities = any.nil;
    buildings = any.nil;
    draft = any.nil;
  }

  -- What indexing the map gives: nil for a key that is not there.
  abbrev pub section_of : String → Latest J → J
  section_of section l = or_nil (lookup section l.sections)

  unfoldable pub snapshot : String → Latest J → Snapshot J
  unfolding clone lookup
  snapshot session_id l = if l.snapshot_count == 0 then empty_snapshot session_id l else record {
    status = "ok";
    session_id = session_id;
    received_at = l.received_at;
    snapshot_count = l.snapshot_count;
    provider = clone (section_of "provider" l);
    map = clone (section_of "map" l);
    player = clone (section_of "player" l);
    hero = clone (section_of "hero" l);
    items = clone (section_of "items" l);
    abilities = clone (section_of "abilities" l);
    buildings = clone (section_of "buildings" l);
    draft = clone (section_of "draft" l);
  }
