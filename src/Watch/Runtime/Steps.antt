-- ===== src/Watch/Runtime/Steps.antt =====
-- The watcher of rust/src/watch.rs as a whole: its thread, and the application that calls it from
-- other threads, one step after the other in any order.
use hidpin.Base.{ℕ, ◌≡◌, Option, List, [], ◌∷◌, ◌++◌}
use hidpin.Base.Text.{Text}
use hidpin.Error.{ok}
use hidpin.Transport.{Host}
use hidpin.Watch.Events.{Event}
use hidpin.Watch.Runtime.{Command, System}
use hidpin.Watch.Runtime.Api.{WatchOptions, got, take, submit, request_stop, notify, watch}
use hidpin.Watch.Runtime.Thread.{thread_step}

-- What a step is to the application: nothing, an event that it took, or a call that it made.
pub data Label : Type 0 where
  silent : Label
  took : Event → Label
  asked : ℕ → Label

abbrev pub taken : List Label → List Event
taken [] = []
taken (silent ∷ ls) = taken ls
taken (took event ∷ ls) = event ∷ taken ls
taken (asked ticket ∷ ls) = taken ls

-- The tickets of the calls, in the order in which they were made.
abbrev pub tickets_of : List Label → List ℕ
tickets_of [] = []
tickets_of (silent ∷ ls) = tickets_of ls
tickets_of (took event ∷ ls) = tickets_of ls
tickets_of (asked ticket ∷ ls) = ticket ∷ tickets_of ls

module _ {E H : Type 0} (host : Host E H) (rounds : ℕ) where
  -- The thread moves, or its wait ends by itself; the application takes an event, calls, or stops
  -- the watcher.
  pub data Step : System E H → Label → System E H → Type 0 where
    thread : (s : System E H) → Step s silent (thread_step host rounds s)
    wakes : (s : System E H) → Step s silent (notify s)
    takes :
        (deadline : Option ℕ) (now : ℕ) (event : Event) (s t : System E H)
        → take deadline now s ≡ (got event, t)
        → Step s (took event) t
    calls :
        (ticket : ℕ) (command : Command) (s t : System E H)
        → submit ticket command s ≡ ok t
        → Step s (asked ticket) t
    stops : (s : System E H) → Step s silent (request_stop s)

  -- The states of a watcher with these options, with the steps that led there.
  pub data Reached (options : WatchOptions) : List Label → System E H → Type 0 where
    watched :
        (vars : Text → Option Text) (t : ℕ) (env : E) (s : System E H)
        → watch vars options t env ≡ ok s
        → Reached options [] s
    then_step :
        (ls : List Label) (l : Label) (s s' : System E H)
        → Reached options ls s
        → Step s l s'
        → Reached options (ls ++ (l ∷ [])) s'
