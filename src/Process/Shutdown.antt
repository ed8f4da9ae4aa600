-- ===== src/Process/Shutdown.antt =====
-- serve of go/cmd/server/main.go: the goroutine that serves, the channel with one place, the signal,
-- and the main goroutine with its select and its shutdown, one event at a time. Events of net/http
-- are those that it documents: Serve returns an error, ErrServerClosed once Shutdown has begun, and
-- Shutdown returns at its deadline at the latest.
pub mod Ending
pub mod Returns
use synthient_mcp.Prelude.{
  ℕ, ◌+◌, List, [], ◌∷◌, Bool, true, false, ◌||◌, Option, none, some, if◌then◌else◌,
}

pub data ServeError : Type 0 where
  closed : ServeError
  other : (code : ℕ) → ServeError

pub data Failure : Type 0 where
  serve_failed : (code : ℕ) → Failure
  shutdown_failed : Failure

-- The goroutine serves, has sent its error into the channel, or the error has been received.
pub data Serving : Type 0 where
  running : Serving
  sent received : ServeError → Serving

-- Where the main goroutine stands: at the select, in Shutdown, at the receive behind it with
-- whether Shutdown succeeded, or at its return.
pub data Main : Type 0 where
  selecting shutting : Main
  awaiting : (graceful : Bool) → Main
  returned : Option Failure → Main

pub record State : Type 0 where
  pub main : Main
  pub serving : Serving
  pub cancelled : Bool

abbrev pub start : State
start = record { main = selecting; serving = running; cancelled = false }

pub data Event : Type 0 where
  -- the process gets a signal
  signal : Event
  -- Serve returns: with another error, or as closed
  fail : (code : ℕ) → Event
  close : Event
  -- the select takes the error, or the cancellation
  take_error take_signal : Event
  -- Shutdown returns
  end_shutdown : (graceful : Bool) → Event
  -- the receive behind Shutdown
  receive : Event

-- The return of the select's first case.
abbrev pub verdict : ServeError → Option Failure
verdict closed = none
verdict (other code) = some (serve_failed code)

-- The returns behind Shutdown.
abbrev pub final_verdict : Bool → ServeError → Option Failure
final_verdict false e = some shutdown_failed
final_verdict true e = verdict e

abbrev has_begun : Main → Bool
has_begun shutting = true
has_begun (awaiting graceful) = true
has_begun _ = false

-- The state behind an event; none where it cannot happen.
unfoldable pub step : Event → State → Option State
step signal s = if s.cancelled then none else some (record s { cancelled = true })
step (fail code) s = elim (s.serving) [
  | running ↦ some (record s { serving = sent (other code) })
  | _ ↦ none
]
step close s = elim (s.serving) [
  | running ↦ if has_begun s.main then some (record s { serving = sent closed }) else none
  | _ ↦ none
]
step take_error s = elim (s.main) [
  | selecting ↦ elim (s.serving) [
    | sent e ↦ some (record s { main = returned (verdict e); serving = received e })
    | _ ↦ none
  ]
  | _ ↦ none
]
step take_signal s = elim (s.main) [
  | selecting ↦ if s.cancelled then some (record s { main = shutting }) else none
  | _ ↦ none
]
step (end_shutdown graceful) s = elim (s.main) [
  | shutting ↦ some (record s { main = awaiting graceful })
  | _ ↦ none
]
step receive s = elim (s.main) [
  | awaiting graceful ↦ elim (s.serving) [
    | sent e ↦ some (record s { main = returned (final_verdict graceful e); serving = received e })
    | _ ↦ none
  ]
  | _ ↦ none
]

abbrev pub after : Option State → (State → Option State) → Option State
after none next = none
after (some s) next = next s

-- A sequence of events.
unfoldable pub run : List Event → State → Option State
unfolding step
run [] s = some s
run (e ∷ events) s = after (step e s) (run events)

-- The events that are still to come: an upper bound.
abbrev main_left : Main → ℕ
main_left selecting = 3
main_left shutting = 2
main_left (awaiting graceful) = 1
main_left (returned result) = 0

abbrev serving_left : Serving → ℕ
serving_left running = 2
serving_left (sent e) = 1
serving_left (received e) = 0

abbrev pub left : State → ℕ
left s = main_left s.main + serving_left s.serving + (if s.cancelled then 0 else 1)
