-- ===== src/Archive/Verified.antt =====
-- When Verify verifies an archive.
use mathlib.Core.Path.{subst}
use mathlib.Core.Logic.{◌↔◌}
use mathlib.Core.Bool.{false≢true}
use dota2_ob.Prelude.Guards.{apart, past_guard}
use dota2_ob.Prelude.{
  ℕ, ◌≡◌, refl, ap, ==_iff, String, Bool, true, false, not, ◌&&◌, Option, none, some, List, [], ◌∷◌,
  ◌++◌, length, str_eq, eq_iff, arith, if◌then◌else◌,
}
use dota2_ob.Prelude.Int.{ℤ, pos, ◌+ℤ◌, eqb_ℤ, eq_of_parts}
use dota2_ob.Archive.{
  Match, Verification, VerifyOptions, check_rest, check_demo_magic, check_magic, check_hash,
  check_size, Answers, verify, state_verified, zstd_magic, demo_magic, bytes_equal,
}

-- Every call succeeds, both magics are there, and the sizes and hashes are those of the manifest.
pub record Passes (sha256_hex : List ℕ → String) (mt : Match) (opts : VerifyOptions) (a : Answers)
    : Type 0 where
  pub opened : a.opened ≡ true
  pub sized : a.size ≡ some mt.archive_bytes
  pub hashed : (bytes : List ℕ) × (a.archive ≡ some bytes) × (sha256_hex bytes ≡ mt.archive_sha256)
  pub rewound : (a.rewound ≡ true) × (a.rewound_again ≡ true)
  pub magic : a.head ≡ some zstd_magic
  pub decoder : a.decoder ≡ true
  pub demo : a.demo_head ≡ some demo_magic
  pub output : (opts.write_demo ≡ true) → (a.created ≡ true) × (a.head_written ≡ true)
  pub rest :
      (bytes : List ℕ) × (a.demo_rest ≡ some bytes)
      × (pos (length bytes) +ℤ pos 8 ≡ mt.demo_bytes)
      × (sha256_hex (demo_magic ++ bytes) ≡ mt.demo_sha256)

bytes_equal_eq : (xs ys : List ℕ) → bytes_equal xs ys ≡ true → xs ≡ ys
unfolding bytes_equal
bytes_equal_eq [] [] h = refl
bytes_equal_eq [] (y ∷ ys) h = cc
bytes_equal_eq (x ∷ xs) [] h = cc
bytes_equal_eq (x ∷ xs) (y ∷ ys) h = ground (arith, bytes_equal_eq xs ys)

bytes_equal_self : (xs : List ℕ) → bytes_equal xs xs ≡ true
unfolding bytes_equal
bytes_equal_self [] = refl
bytes_equal_self (x ∷ xs) = ground (arith, bytes_equal_self xs)

abbrev state_of : Verification → String
state_of v = v.state

abbrev Verifies : Verification → Type 0
Verifies v = state_of v ≡ state_verified

module _ (sha256_hex : List ℕ → String) (mt : Match) (opts : VerifyOptions) (a : Answers) where
  abbrev RestPasses : List ℕ → Option (List ℕ) → Type 0
  RestPasses magic o =
      (bytes : List ℕ) × (o ≡ some bytes)
      × (pos (length bytes) +ℤ pos (length magic) ≡ mt.demo_bytes)
      × (sha256_hex (magic ++ bytes) ≡ mt.demo_sha256)

  check_rest-RestPasses :
      (magic : List ℕ) (o : Option (List ℕ)) (v : Verification)
      → Verifies (check_rest sha256_hex mt opts a magic o v)
      → RestPasses magic o
  check_rest-RestPasses magic none v h = absurd (apart "corrupt" state_verified refl h)
  check_rest-RestPasses magic (some bytes) v h =
      let n : ℤ = pos (length bytes) +ℤ pos (length magic) in
      let (sized, later) = past_guard state_of state_verified (eqb_ℤ n mt.demo_bytes) _ _ refl h in
      let (hashed, _) =
        past_guard state_of state_verified (str_eq (sha256_hex (magic ++ bytes)) mt.demo_sha256) _ _
          refl later in
      (
        bytes,
        refl,
        eq_of_parts n mt.demo_bytes ((==_iff _ _).0 sized),
        (eq_iff (sha256_hex (magic ++ bytes)) mt.demo_sha256).0 hashed,
      )

  abbrev OutputPasses : Type 0
  OutputPasses = (opts.write_demo ≡ true) → (a.created ≡ true) × (a.head_written ≡ true)

  output_guards :
      (w c d : Bool) (x y z : Verification)
      → str_eq x.state state_verified ≡ false
      → str_eq y.state state_verified ≡ false
      → Verifies (if w && not c then x else if w && not d then y else z)
      → (w ≡ true → (c ≡ true) × (d ≡ true)) × Verifies z
  output_guards false c d x y z n m h = (λ e. absurd (false≢true e), h)
  output_guards true false d x y z n m h = absurd (apart x.state state_verified n h)
  output_guards true true false x y z n m h = absurd (apart y.state state_verified m h)
  output_guards true true true x y z n m h = (λ e. (refl, refl), h)

  check_demo_magic-passes :
      (o : Option (List ℕ)) (v : Verification)
      → Verifies (check_demo_magic sha256_hex mt opts a o v)
      → (o ≡ some demo_magic) × OutputPasses × RestPasses demo_magic a.demo_rest
  check_demo_magic-passes none v h = absurd (apart "corrupt" state_verified refl h)
  check_demo_magic-passes (some magic) v h =
      let (same, later) =
        past_guard state_of state_verified (bytes_equal magic demo_magic) _ _ refl h in
      let (output, rest) =
        output_guards opts.write_demo a.created a.head_written _ _ _ refl refl later in
      let found : magic ≡ demo_magic = bytes_equal_eq magic demo_magic same in
      (
        ap some found,
        output,
        subst (λ m. RestPasses m a.demo_rest) found
            (check_rest-RestPasses magic a.demo_rest _ rest),
      )

  abbrev MagicPasses : Option (List ℕ) → Type 0
  MagicPasses o =
      (o ≡ some zstd_magic)
      × (a.rewound_again ≡ true)
      × (a.decoder ≡ true)
      × (a.demo_head ≡ some demo_magic)
      × OutputPasses
      × RestPasses demo_magic a.demo_rest

  check_magic-MagicPasses :
      (o : Option (List ℕ)) (v : Verification)
      → Verifies (check_magic sha256_hex mt opts a o v)
      → MagicPasses o
  check_magic-MagicPasses none v h = absurd (apart "corrupt" state_verified refl h)
  check_magic-MagicPasses (some magic) v h =
      let (same, sought) =
        past_guard state_of state_verified (bytes_equal magic zstd_magic) _ _ refl h in
      let (again, decoded) = past_guard state_of state_verified a.rewound_again _ _ refl sought in
      let (decoder, demo) = past_guard state_of state_verified a.decoder _ _ refl decoded in
      let (head, output, rest) = check_demo_magic-passes a.demo_head _ demo in
      (ap some (bytes_equal_eq magic zstd_magic same), again, decoder, head, output, rest)

  abbrev HashPasses : Option (List ℕ) → Type 0
  HashPasses o =
      (bytes : List ℕ) × (o ≡ some bytes)
      × (sha256_hex bytes ≡ mt.archive_sha256)
      × (a.rewound ≡ true)
      × MagicPasses a.head

  check_hash-HashPasses :
      (o : Option (List ℕ)) (v : Verification)
      → Verifies (check_hash sha256_hex mt opts a o v)
      → HashPasses o
  check_hash-HashPasses none v h = absurd (apart "corrupt" state_verified refl h)
  check_hash-HashPasses (some bytes) v h =
      let (hashed, sought) =
        past_guard state_of state_verified (str_eq (sha256_hex bytes) mt.archive_sha256) _ _ refl
          h in
      let (rewound, magic) = past_guard state_of state_verified a.rewound _ _ refl sought in
      (
        bytes,
        refl,
        (eq_iff (sha256_hex bytes) mt.archive_sha256).0 hashed,
        rewound,
        check_magic-MagicPasses a.head _ magic,
      )

  check_size-passes :
      (o : Option ℤ) (v : Verification)
      → Verifies (check_size sha256_hex mt opts a o v)
      → (o ≡ some mt.archive_bytes) × HashPasses a.archive
  check_size-passes none v h = absurd (apart "missing" state_verified refl h)
  check_size-passes (some size) v h =
      let (sized, later) =
        past_guard state_of state_verified (eqb_ℤ size mt.archive_bytes) _ _ refl h in
      (
        ap some (eq_of_parts size mt.archive_bytes ((==_iff _ _).0 sized)),
        check_hash-HashPasses a.archive _ later,
      )

  verify-Passes : Verifies (verify sha256_hex mt opts a) → Passes sha256_hex mt opts a
  unfolding verify
  verify-Passes h =
      let (opened, later) = past_guard state_of state_verified a.opened _ _ refl h in
      let (sized, hash_passes) = check_size-passes a.size _ later in
      let (bytes, read, hashed, rewound, magic_passes) = hash_passes in
      let (magic, again, decoder, demo, output, rest) = magic_passes in
      record {
        opened = opened;
        sized = sized;
        hashed = (bytes, read, hashed);
        rewound = (rewound, again);
        magic = magic;
        decoder = decoder;
        demo = demo;
        output = output;
        rest = rest;
      }

  eqb_ℤ_self : (z : ℤ) → eqb_ℤ z z ≡ true
  eqb_ℤ_self z = (==_iff _ _).1 refl

  output_open :
      (w c d : Bool) (x y z : Verification)
      → (w ≡ true → (c ≡ true) × (d ≡ true))
      → (if w && not c then x else if w && not d then y else z) ≡ z
  output_open false c d x y z h = refl
  output_open true c d x y z h = rw ((h refl).0, (h refl).1)

  Passes-verify : Passes sha256_hex mt opts a → Verifies (verify sha256_hex mt opts a)
  unfolding verify
  Passes-verify p =
      let (bytes, read, hashed) = p.hashed in
      let (rest, copied, sized, demo_hashed) = p.rest in
      let archive_same : str_eq (sha256_hex bytes) mt.archive_sha256 ≡ true =
        (eq_iff (sha256_hex bytes) mt.archive_sha256).1 hashed in
      let demo_same : str_eq (sha256_hex (demo_magic ++ rest)) mt.demo_sha256 ≡ true =
        (eq_iff (sha256_hex (demo_magic ++ rest)) mt.demo_sha256).1 demo_hashed in
      let demo_sized : eqb_ℤ (pos (length rest) +ℤ pos 8) mt.demo_bytes ≡ true =
        subst (λ z. eqb_ℤ (pos (length rest) +ℤ pos 8) z ≡ true) sized
          (eqb_ℤ_self (pos (length rest) +ℤ pos 8)) in
      rw (
        p.opened,
        p.sized,
        eqb_ℤ_self mt.archive_bytes,
        read,
        archive_same,
        p.rewound.0,
        p.magic,
        bytes_equal_self zstd_magic,
        p.rewound.1,
        p.decoder,
        p.demo,
        bytes_equal_self demo_magic,
        output_open opts.write_demo a.created a.head_written _ _ _ p.output,
        copied,
        demo_sized,
        demo_same,
      )

-- Verify verifies an archive exactly if every call that it makes succeeds, the archive has the size
-- and the hash of the manifest and begins with the Zstandard magic, and the demo in it begins with
-- the demo magic and has, with that, the size and the hash of the manifest.
pub verify_iff :
    (sha256_hex : List ℕ → String) (mt : Match) (opts : VerifyOptions) (a : Answers)
    → ((verify sha256_hex mt opts a).state ≡ state_verified) ↔ Passes sha256_hex mt opts a
verify_iff sha256_hex mt opts a =
    (verify-Passes sha256_hex mt opts a, Passes-verify sha256_hex mt opts a)
