-- ===== src/Session/Tests.antt =====
-- Runs of internal/session/store.go: appends, one of which does not fit, and restarts.
use dota2_ob.Prelude.{ℕ, ◌≡◌, refl, String, true, false, none, some, List, [], ◌∷◌, ◌++◌, length}
use dota2_ob.Prelude.Int.{pos}
use dota2_ob.Prelude.Decimal.{format_digits, format_uint}
use dota2_ob.Session.{
  Bytes, append_failed, failed, Store, Attempt, handle, open_error, decode_json, append, rollback,
}
use dota2_ob.Session.Journal.{disk, Outcome, append-Outcome}
use dota2_ob.Session.Run.{appends, lines_of, Consecutive, journal, open_error_sticks}
use dota2_ob.Session.Recovery.{recover_raw_file, recovered, ReadResult, read, bytes_eq}
use dota2_ob.Session.Create.{
  is_blank, has_separator, is_safe_session_id, with_session_id, created, new_at, new_store,
}
use dota2_ob.Session.Fresh.{new_store-restarts}
use dota2_ob.Session.EndToEnd.{recover-appends}
use dota2_ob.Session.Samples.{Disk, disk_ops, disk_laws, codec, codec_laws}

abbrev empty_disk : Disk
empty_disk = record { held = []; room = 12; is_nil = false }

abbrev nil_disk : Disk
nil_disk = record { held = []; room = 0; is_nil = true }

abbrev fresh : Store Disk
fresh = record { session_id = "match"; file = none; sequence = 0; sealed = false; closed = false }

abbrev at : ℕ → Bytes → Attempt Disk
at now raw = record { raw = raw; now = pos now; opened = handle empty_disk }

-- The third one does not fit any more, and is rolled back; the second one is no JSON value.
abbrev attempts : List (Attempt Disk)
attempts = at 1 (40 ∷ []) ∷ at 2 (41 ∷ 42 ∷ []) ∷ at 3 (43 ∷ []) ∷ at 4 (44 ∷ []) ∷ []

abbrev content : Disk → Bytes
content d = d.held

append-Outcome_example :
    let o = append disk_ops codec fresh (at 1 (40 ∷ [])) in
    Outcome disk_ops codec content disk_laws [] fresh o.0 o.1
append-Outcome_example =
    append-Outcome disk_ops codec content disk_laws [] fresh (at 1 (40 ∷ [])) refl

journal_example :
    (disk content [] (appends disk_ops codec fresh attempts).0.file
      ≡ [] ++ lines_of codec (appends disk_ops codec fresh attempts).1)
    × Consecutive 0 (appends disk_ops codec fresh attempts).1
unfolding appends append decode_json rollback bytes_eq format_uint format_digits
journal_example =
    journal disk_ops codec content disk_laws [] fresh attempts (refl, (refl, (refl, (refl, tt))))
      refl

open_error_sticks_example :
    let bad : Attempt Disk = record {
      raw = 40 ∷ [];
      now = pos 1;
      opened = open_error (some nil_disk);
    } in
    ((append disk_ops codec fresh bad).1 ≡ failed append_failed)
    × ((appends disk_ops codec (append disk_ops codec fresh bad).0 attempts).1 ≡ [])
unfolding decode_json
open_error_sticks_example =
    open_error_sticks disk_ops codec fresh
      (record { raw = 40 ∷ []; now = pos 1; opened = open_error (some nil_disk) }) nil_disk 7
      attempts refl refl refl refl refl refl

recover-appends_example :
    let t = (appends disk_ops codec fresh attempts).0 in
    recover_raw_file codec "match" (read (disk content [] t.file ++ (50 ∷ []))) true
    ≡ recovered t.sequence (some (length (disk content [] t.file)))
unfolding appends append decode_json rollback bytes_eq format_uint format_digits
recover-appends_example =
    recover-appends disk_ops codec content disk_laws codec_laws fresh attempts (50 ∷ []) refl refl
      (refl, (refl, (refl, (refl, tt)))) (refl, (refl, (refl, (refl, tt)))) refl (refl, tt)

-- A session's raw file after the attempts and a torn line.
abbrev files : String → ReadResult
files id = read (disk content [] (appends disk_ops codec fresh attempts).0.file ++ (50 ∷ []))

new_store-restarts_example :
    new_store {F = Disk} {O = Unit} codec
      (λ (u : Unit). "now")
      "data"
      tt
      (with_session_id "match" ∷ [])
      files
      true
      true
    ≡ created (new_at "match" (appends disk_ops codec fresh attempts).0.sequence) none
unfolding appends append decode_json rollback bytes_eq format_uint format_digits is_blank
    has_separator is_safe_session_id
new_store-restarts_example =
    new_store-restarts disk_ops codec content disk_laws codec_laws (λ (u : Unit). "now") "data" tt
      files fresh attempts (50 ∷ []) refl refl (refl, (refl, (refl, (refl, tt))))
      (refl, (refl, (refl, (refl, tt)))) refl (refl, tt) refl refl refl
