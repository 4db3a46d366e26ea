-- ===== src/Session/Create.antt =====
-- internal/session/store.go, NewStore and its options: a store for a session, new or restarted.
-- The clock's reading, printed as a session id, and the answers of the file system are arguments; the
-- type `C` is that of clocks and `O` that of openers. `none` is a nil option, and the opener `none` of
-- a store is the one that NewStore makes, which opens the recovered file.
use dota2_ob.Prelude.{
  ℕ, String, Bool, true, false, not, ◌&&◌, ◌||◌, Option, none, some, List, [], ◌∷◌, codes, leb,
  ◌==◌, str_eq, if◌then◌else◌,
}
use dota2_ob.Session.{Codec, Store}
use dota2_ob.Session.Recovery.{
  Recovered, recovered, invalid_record, read_failed, truncate_failed, ReadResult, recover_raw_file,
}

-- unicode.IsSpace
abbrev pub is_space : ℕ → Bool
is_space c =
    (leb 9 c && leb c 13)
    || c == 32
    || c == 133
    || c == 160
    || c == 5760
    || (leb 8192 c && leb c 8202)
    || c == 8232
    || c == 8233
    || c == 8239
    || c == 8287
    || c == 12288

-- strings.TrimSpace(s) == ""
unfoldable pub is_blank : List ℕ → Bool
is_blank [] = true
is_blank (c ∷ cs) = is_space c && is_blank cs

abbrev pub is_separator : ℕ → Bool
is_separator c = c == 47 || c == 92

-- strings.ContainsAny(s, `/\`)
unfoldable pub has_separator : List ℕ → Bool
has_separator [] = false
has_separator (c ∷ cs) = is_separator c || has_separator cs

unfoldable pub is_safe_session_id : String → Bool
unfolding is_blank has_separator
is_safe_session_id id =
    if is_blank (codes id) || str_eq id "." || str_eq id ".."
    then false
    else not (has_separator (codes id))

pub data StoreOption (C O : Type 0) : Type 0 where
  with_clock : Option C → StoreOption C O
  with_session_id : String → StoreOption C O
  with_raw_file : Option O → StoreOption C O

-- The part of Store that the options set.
pub record Setup (C O : Type 0) : Type 0 where
  pub clock : C
  pub session_id : String
  pub open_file : Option O

pub data NewResult (F O : Type 0) : Type 0 where
  created : Store F → Option O → NewResult F O
  root_required : NewResult F O
  unsafe_session_id : NewResult F O
  create_dir_failed : NewResult F O
  recovery_failed : NewResult F O

module _ {C O : Type 0} where
  unfoldable pub apply_option : StoreOption C O → Setup C O → Setup C O
  apply_option (with_clock none) s = s
  apply_option (with_clock (some clock)) s = record s { clock = clock }
  apply_option (with_session_id id) s = record s { session_id = id }
  apply_option (with_raw_file none) s = s
  apply_option (with_raw_file (some opener)) s = record s { open_file = some opener }

  unfoldable pub apply_options : List (StoreOption C O) → Setup C O → Setup C O
  unfolding apply_option
  apply_options [] s = s
  apply_options (o ∷ os) s = apply_options os (apply_option o s)

module _ {F : Type 0} where
  abbrev pub new_at : String → ℕ → Store F
  new_at id sequence = record {
    session_id = id;
    file = none;
    sequence = sequence;
    sealed = false;
    closed = false;
  }

module _ {F O : Type 0} where
  abbrev pub after_recovery : String → Recovered → NewResult F O
  after_recovery id (recovered sequence cut) = created (new_at id sequence) none
  after_recovery id (invalid_record n) = recovery_failed
  after_recovery id read_failed = recovery_failed
  after_recovery id truncate_failed = recovery_failed

module _ {F O J : Type 0} (codec : Codec J) where
  abbrev pub after_mkdir : String → Option O → (String → ReadResult) → Bool → NewResult F O
  after_mkdir id (some opener) files truncates = created (new_at id 0) (some opener)
  after_mkdir id none files truncates =
      after_recovery id (recover_raw_file codec id (files id) truncates)

module _ {C O : Type 0} (now : C → String) where
  abbrev pub named : Setup C O → String
  named s = if str_eq s.session_id "" then now s.clock else s.session_id

module _ {F C O J : Type 0} (codec : Codec J) (now : C → String) where
  -- `files` gives what the raw file of a session id holds; the flags say that MkdirAll and Truncate
  -- succeed.
  unfoldable pub new_store :
      String → C → List (StoreOption C O) → (String → ReadResult) → Bool → Bool → NewResult F O
  unfolding apply_options is_safe_session_id
  new_store root clock opts files makes truncates =
      if is_blank (codes root)
      then root_required
      else (let s : Setup C O =
            apply_options opts (record { clock = clock; session_id = ""; open_file = none }) in
          if not (is_safe_session_id (named now s))
          then unsafe_session_id
          else if not makes
          then create_dir_failed
          else after_mkdir codec (named now s) s.open_file files truncates)
