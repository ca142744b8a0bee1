-- ===== src/Watch/Runtime/Queue.antt =====
-- The delivery of events that an application of rust/src/watch.rs may rely on: a queue. What comes
-- into the queue is what the operations of `WatchLoop` emit, step by step.
use hidpin.Base.{Bool, true, false, none, List, [], ◌∷◌, ◌++◌, length, drop, ℕ}
use hidpin.Transport.{Host}
use hidpin.Watch.Connect.{drop_connection}
use hidpin.Watch.Events.{Event}
use hidpin.Watch.Loop.{WatchLoop}
use hidpin.Watch.Runtime.{Phase, serving, acting, leaving, closing, System}
use hidpin.Watch.Runtime.Api.{WatchOptions}
use hidpin.Watch.Runtime.Steps.{
  Label, Step, thread, wakes, takes, calls, stops, Reached, watched, then_step,
}
use hidpin.Watch.Runtime.Thread.{perform, act}

-- What the application may rely on: a queue of events, and whether it asked the watcher to stop.
pub record Queue : Type 0 where
  pub events : List Event
  pub stopping : Bool

pub data QueueOp : Type 0 where
  push : List Event → QueueOp
  pop : Event → QueueOp
  halt : QueueOp
  clear : QueueOp

-- Each operation on the queue: exactly the events that are pushed come to its end, the event that
-- is popped was at its front, and it is cleared only after the application asked for the stop.
pub data QueueStep : Queue → QueueOp → Queue → Type 0 where
  pushes :
      (more : List Event) (q : Queue)
      → QueueStep q (push more) (record { events = q.events ++ more; stopping = q.stopping })
  pops :
      (event : Event) (events : List Event) (stopping : Bool)
      → QueueStep
          (record { events = event ∷ events; stopping = stopping })
          (pop event)
          (record { events = events; stopping = stopping })
  halts : (q : Queue) → QueueStep q halt (record { events = q.events; stopping = true })
  clears :
      (events : List Event)
      → QueueStep
          (record { events = events; stopping = true })
          clear
          (record { events = []; stopping = true })

-- What a queue that was empty at first holds after these operations.
pub data QueueReached : List QueueOp → Queue → Type 0 where
  starts : QueueReached [] (record { events = []; stopping = false })
  then_queue :
      (ops : List QueueOp) (op : QueueOp) (q r : Queue)
      → QueueReached ops q
      → QueueStep q op r
      → QueueReached (ops ++ (op ∷ [])) r

-- The queue that a watcher implements: the events that are out, then those that are pending.
unfoldable pub queue_of : {E H : Type 0} → System E H → Queue
queue_of s = record { events = s.shared.out ++ s.loop.pending; stopping = s.shared.stopping }

-- The events that an operation of the loop emitted.
unfoldable pub emitted_by : {E H : Type 0} → WatchLoop E H → WatchLoop E H → List Event
emitted_by before after = drop (length before.pending) after.pending

module _ {E H : Type 0} (host : Host E H) (rounds : ℕ) where
  -- A step of the thread pushes what the request, the action or the closing of the connection emits
  -- in it, and nothing in any other phase; without an error its last step clears the queue.
  unfoldable pub thread_op : Phase → System E H → QueueOp
  thread_op (serving (r ∷ rest)) s =
      push (emitted_by s.loop (perform host rounds r.command s.loop).1)
  thread_op acting s = push (emitted_by s.loop (act host rounds s.loop).1)
  thread_op (leaving result) s = push (emitted_by s.loop (drop_connection host s.loop).1)
  thread_op (closing none) s = clear
  thread_op phase s = push []

  -- The application pops the event that it takes.
  unfoldable pub op_of : {s t : System E H} {l : Label} → Step host rounds s l t → QueueOp
  op_of (thread s) = thread_op s.phase s
  op_of (wakes s) = push []
  op_of (takes deadline now event s t h) = pop event
  op_of (calls ticket command s t h) = push []
  op_of (stops s) = halt

  unfoldable pub ops_of :
      {options : WatchOptions} {ls : List Label} {s : System E H}
      → Reached host rounds options ls s
      → List QueueOp
  ops_of (watched vars t env s h) = []
  ops_of (then_step ls l s s' reached step) = ops_of reached ++ (op_of step ∷ [])
