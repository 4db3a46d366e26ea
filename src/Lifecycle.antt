-- ===== src/Lifecycle.antt =====
-- internal/lifecycle/runner.go: how the capture process ends.
-- The server, the waiter and the appender are interfaces: what their calls answer is in `Answers`,
-- and the calls that Run makes are its result, in order. The list of codes is the error; the source
-- joins it by "; ".
pub mod Shutdown
mod Tests
use dota2_ob.Prelude.{
  String, Bool, true, false, not, ◌&&◌, Option, none, some, List, [], ◌∷◌, ◌++◌, if◌then◌else◌,
  is_empty,
}

-- The error of Serve: nil, http.ErrServerClosed, or another.
pub data ServeResult : Type 0 where
  served server_closed serve_failed : ServeResult

-- Which channel the select receives from.
pub data Wake : Type 0 where
  serve_done signal : Wake

pub record Answers : Type 0 where
  pub wake : Wake
  pub serve : ServeResult
  -- "no error" of the Shutdown with a deadline, of the one without, and of the appender's Close
  pub shutdown_fine : Bool
  pub retry_fine : Bool
  pub raw_close_fine : Bool

pub data Action : Type 0 where
  shutdown wait retry_shutdown close_server await_serve close_raw : Action

abbrev pub is_failure : ServeResult → Bool
is_failure served = false
is_failure server_closed = false
is_failure serve_failed = true

abbrev pub serve_code : Bool → List String
serve_code failed = if failed then "server_serve_failed" ∷ [] else []

abbrev pub shutdown_code : Bool → List String
shutdown_code fine = if fine then [] else "server_shutdown_failed" ∷ []

abbrev pub raw_code : Bool → List String
raw_code fine = if fine then [] else "raw_close_failed" ∷ []

abbrev pub wait_if : Bool → List Action
wait_if waiter = if waiter then wait ∷ [] else []

-- What follows a failed Shutdown: drain, try again without a deadline, close by force.
abbrev force : Bool → Answers → List Action
force waiter a =
    wait_if waiter ++ (retry_shutdown ∷ (if a.retry_fine then [] else close_server ∷ []))

-- The select: the calls made, the codes, and whether the waiter has been waited for.
abbrev select : Bool → Answers → Wake → List Action × List String × Bool
select waiter a serve_done = (
  shutdown ∷ (if a.shutdown_fine then [] else force waiter a),
  serve_code (is_failure a.serve) ++ shutdown_code a.shutdown_fine,
  not a.shutdown_fine && waiter,
)
select waiter a signal = (
  shutdown ∷ ((if a.shutdown_fine then [] else force waiter a) ++ await_serve ∷ []),
  shutdown_code a.shutdown_fine ++ serve_code (is_failure a.serve && a.shutdown_fine),
  not a.shutdown_fine && waiter,
)

abbrev error_of : List String → Option (List String)
error_of codes = if is_empty codes then none else some codes

-- `waiter` says that there is one.
unfoldable pub run : Bool → Answers → List Action × Option (List String)
run waiter a =
    let (calls, codes, waited) = select waiter a a.wake in
    (
      calls ++ ((if waiter && not waited then wait ∷ [] else []) ++ close_raw ∷ []),
      error_of (codes ++ raw_code a.raw_close_fine),
    )
