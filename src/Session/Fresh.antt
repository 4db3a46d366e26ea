-- ===== src/Session/Fresh.antt =====
-- What NewStore promises of a session's file: a sequence that goes on where it stopped.
use mathlib.Core.Bool.{false≢true}
use dota2_ob.Prelude.{
  ◌≡◌, sym, ap, ◌∙◌, String, true, false, not, none, List, [], ◌∷◌, ◌++◌, All, codes, eq_iff,
  str_eq, if◌then◌else◌, if_else, inl, inr, Bool-cases,
}
use dota2_ob.Session.{Bytes, FileOps, Codec, Store, Attempt}
use dota2_ob.Session.Recovery.{ReadResult, read, recover_raw_file}
use dota2_ob.Session.Journal.{FileLaws, disk, OpensAt}
use dota2_ob.Session.Run.{appends}
use dota2_ob.Session.Lines.{IsLine}
use dota2_ob.Session.EndToEnd.{CodecLaws, IsTimed, recover-appends}
use dota2_ob.Session.Create.{
  is_blank, is_safe_session_id, with_session_id, NewResult, created, unsafe_session_id,
  apply_option, apply_options, new_at, after_recovery, after_mkdir, named, new_store,
}

safe_named : (id : String) → is_safe_session_id id ≡ true → str_eq id "" ≡ false
unfolding is_safe_session_id is_blank
safe_named id h = elim (Bool-cases (str_eq id "")) [
  | inl nothing ↦ absurd (false≢true (ap is_safe_session_id (sym ((eq_iff id "").0 nothing)) ∙ h))
  | inr named ↦ named
]

-- A store that is created again for the session of an earlier one, after a crash at any byte of a
-- further line, goes on with the sequence number of the earlier store. The earlier store started
-- unopened with sequence 0 on an empty file, was not sealed, no clock reading was the zero time,
-- and the file holds what it wrote and the torn rest; the root is not blank and the session id is
-- safe; the file and encoding/json behave as FileLaws and CodecLaws say.
pub new_store-restarts :
    {F C O J : Type 0} (ops : FileOps F) (codec : Codec J) (content : F → Bytes)
    (laws : FileLaws ops content) (coding : CodecLaws codec) (now : C → String) (root : String)
    (clock : C) (files : String → ReadResult) (s : Store F) (attempts : List (Attempt F))
    (tail : Bytes)
    → s.file ≡ none
    → s.sequence ≡ 0
    → All (λ a. OpensAt ops codec content laws [] a.opened) attempts
    → All (IsTimed ops codec content laws coding []) attempts
    → (appends ops codec s attempts).0.sealed ≡ false
    → IsLine tail
    → files s.session_id ≡ read (disk content [] (appends ops codec s attempts).0.file ++ tail)
    → is_blank (codes root) ≡ false
    → is_safe_session_id s.session_id ≡ true
    → new_store {F = F} {O = O} codec now root clock
        (with_session_id s.session_id ∷ [])
        files
        true
        true
      ≡ created (new_at s.session_id (appends ops codec s attempts).0.sequence) none
unfolding new_store apply_options apply_option
new_store-restarts {F} {C} {O} {J} ops codec content laws coding now root clock files s attempts
      tail unopened zeroth opens timed unsealed torn there rooted safe =
    let id : String = s.session_id in
    let t : Store F = (appends ops codec s attempts).0 in
    let name : (if str_eq id "" then now clock else id) ≡ id =
      if_else (str_eq id "") (now clock) id (safe_named id safe) in
    let body : String → NewResult F O = λ n.
      if not (is_safe_session_id n)
      then unsafe_session_id
      else after_mkdir codec n none files true in
    if_else (is_blank (codes root)) _ _ rooted
    ∙ ap body name
    ∙ if_else (not (is_safe_session_id id)) _ _ (ap not safe)
    ∙ ap (λ r. after_recovery id (recover_raw_file codec id r true)) there
    ∙ ap (after_recovery id) (
        recover-appends ops codec content laws coding s attempts tail unopened zeroth opens timed
          unsealed torn)
