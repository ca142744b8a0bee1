-- ===== src/Watch/Runtime.antt =====
-- The thread of the watcher, `WatchLoop::run` and `main_loop` of rust/src/watch.rs, and what it
-- shares with the application: their state.
pub mod Thread
pub mod Api
pub mod Options
pub mod Steps
pub mod Fields
pub mod Invariant
pub mod Safety
pub mod Bounds
pub mod Wakeups
pub mod Queue
pub mod Leaving
pub mod Refinement
pub mod Finished
pub mod Answers
pub mod Stopping
use hidpin.Base.{ℕ, Bool, Option, List}
use hidpin.Error.{Error, Result}
use hidpin.Protocol.Pins.{PinConfig}
use hidpin.Watch.Events.{Event}
use hidpin.Watch.Loop.{WatchLoop}

-- OUT_CAPACITY and READ_POLL; the least time of a read
abbrev pub out_capacity : ℕ
out_capacity = 16

abbrev pub read_poll : ℕ
read_poll = 50_000_000

abbrev pub least_read : ℕ
least_read = 1_000_000

-- The closures that `set_outputs` and `set_target_pins` send to the thread.
pub data Command : Type 0 where
  drive : List (ℕ × Bool) → Command
  retarget : PinConfig → Command

-- A request; the ticket is the channel of its reply.
pub record Request : Type 0 where
  pub ticket : ℕ
  pub command : Command

-- The answer that a caller gets from the channel of its request.
abbrev pub Reply : Type 0
Reply = ℕ × Result (Unit {0})

-- `struct SharedState`
pub record Shared : Type 0 where
  pub out : List Event
  pub requests : List Request
  pub stopping : Bool
  pub finished : Bool
  pub error : Option Error

-- Where the thread is: at the lock at the top of the loop, serving requests, at the clock, at the
-- lock before it waits, waiting for a change, out of the loop with its result, at the last lock, or
-- finished; `hung` is a call that never returns, `crashed` a panic (an `expect` that
-- fails, or a slice beyond the buffer).
pub data Phase : Type 0 where
  turning : Phase
  serving : List Request → Phase
  acting : Phase
  pausing : Option ℕ → Phase
  asleep : Option ℕ → Phase
  leaving : Option Error → Phase
  closing : Option Error → Phase
  over : Phase
  hung : Phase
  crashed : Phase

-- The watcher: what is shared, the thread, and the answers that it has sent.
pub record System (E H : Type 0) : Type 0 where
  pub shared : Shared
  pub phase : Phase
  pub loop : WatchLoop E H
  pub replies : List Reply

-- What the loop does after it looked at the clock.
pub data Next : Type 0 where
  again : Next
  pause : Option ℕ → Next
