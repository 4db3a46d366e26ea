-- ===== src/Lib.antt =====
-- dota2-ob: the live capture service and the core of the replay analysis.
--
-- The capture service receives snapshots of a game over HTTP. internal/gsi/server.go admits a request
-- and hands its body to internal/capture/processor.go, which appends it to the journal of
-- internal/session/store.go and then passes the record to the projections, of which
-- internal/state/latest.go is one. What happened is reported to internal/operator/tracker.go, whose
-- snapshot is the service's health. internal/lifecycle/runner.go ends the service.
--
-- The replay analysis starts from a manifest of matches. internal/replay/archive/archive.go checks the
-- manifest and the archive of a match. The observations read from the demo (internal/replay/raw) are
-- summarized and joined with the manifest to an identity (internal/replay/identity/identity.go), and
-- give a match clock (internal/replay/clock/clock.go). With both, internal/replay/facts/facts.go turns
-- the observations into numbered facts, from which internal/replay/episodes/episodes.go makes fights,
-- death rounds and other episodes. internal/replay/roles/roles.go gives nominal roles,
-- internal/replay/phase/phase.go the phases of the game, which a reviewer edits with
-- internal/replay/review/phase_ops.go, and internal/replay/metrics/registry.go and closure.go check the
-- contract of the metrics.
--
-- Files, each with child modules for what is proved:
--   Operator    internal/operator/tracker.go: Tracker and its methods, as steps under its lock
--   Session     internal/session/store.go: Store, Append, rollback, Close
--     Recovery  recoverRawFile, validatePersistedRecord, validateSemanticRaw
--     Create    NewStore, its options, isSafeSessionID
--   Capture     internal/capture/processor.go: Process, apply, safeMessage
--   Gsi         internal/gsi/server.go: handleGSI
--     Inflight  ServeHTTP and Wait as steps that interleave
--   Lifecycle   internal/lifecycle/runner.go: Run, with the calls that it makes as its result
--   Latest      internal/state/latest.go: Update and Snapshot
--   Archive     internal/replay/archive/archive.go: Manifest.Validate, Find, Verify
--   Raw         internal/replay/raw/raw.go: the observations and Writer.Write
--     Summaries internal/replay/raw/summary.go: ScanSummary
--   Identity    internal/replay/identity/identity.go: Build and its gates
--     Participants  buildParticipants
--   Clock       internal/replay/clock/clock.go: Build, the conversions to game seconds, StateName
--   Facts       internal/replay/facts/facts.go: Builder.Build, emitCombat, emitFact
--     Payloads, Buildings  the payloads, classifyBuilding
--     Accounts, Drafts  NewBuilder and the accounts behind names, the fact of each kind of entry
--     Numbering, Samples, Totals  the facts handed over and counted, hero samples, the summary
--   Episodes    internal/replay/episodes/episodes.go: Build, its handlers and the fight window
--     Types, Window, Handlers  the data, the fight window, the handler of each family
--   Phase       internal/replay/phase/phase.go: the data and NewEngine
--     Windows, Anchors, Rules, Steps  the per-second maps, medianPos, the rules, Feed and End
--     PerSecond  the stream of phases that PerSecond makes
--   Review      internal/replay/review/phase_ops.go: Apply, the operations on a stream of phases
--     Stream, Refs, Edits  validateStream, ParseEventRef and findByRef, the operations
--   Roles       internal/replay/roles/roles.go: Effective and raw
--   Registry    internal/replay/metrics/registry.go: ParseRegistry, Validate, Find
--     Agreement internal/replay/metrics/closure.go: ValidateAgainstRegistry
--   Closure     internal/replay/metrics/closure.go: ParseClosure, Validate, Lookup
--   Prelude     numbers, integers, instants, text, lists, sorting and maps with string keys
-- The Tests modules run the definitions on small inputs and instantiate the theorems.
--
-- A record is a struct, a data type an enumeration or a sum; a method under a lock is a function from
-- a state to the next. int and int64 values are integers, uint64 counters are numbers that wrap at
-- 2^64, the numbers of facts, events and episodes are numbers, taken to stay below 2^63, instants and
-- durations are nanoseconds, and time.Time.Sub saturates. A Go map is an association list or a
-- function; a range over a map takes the association list's order, and where the code sorts what it
-- has collected, the order has no effect. sort.Slice keeps the order of equal elements here. A nil
-- slice is the empty list, and strings.ToLower and TrimSpace are those of ASCII. What is not the
-- program's own is a parameter: files (FileOps, Answers), encoding/json (Codec, AnyOps, Decoders,
-- marshal), SHA-256, the hero table, float64 (FloatOps, or a type with an order), the HTTP server and
-- the projections; what is assumed of it stands as named hypotheses (FileLaws, CodecLaws, AnyLaws). A
-- number is written with at most 20 digits, as many as a uint64 has; every other loop is structural
-- recursion on a list or on the number of seconds of a window, so nothing else runs on fuel.
--
-- Not modelled: JSON encodings, routing and the read-only handlers, the loading of files, the command
-- line, and the parts of internal/analytics, internal/profile, internal/preflight and internal/replay
-- that are not named above.
mod Prelude
pub mod Operator
pub mod Session
pub mod Capture
pub mod Gsi
pub mod Lifecycle
pub mod Phase
pub mod Roles
pub mod Clock
pub mod Latest
pub mod Closure
pub mod Registry
pub mod Review
pub mod Archive
pub mod Raw
pub mod Identity
pub mod Facts
pub mod Episodes
