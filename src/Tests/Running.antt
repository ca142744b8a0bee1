-- ===== src/Tests/Running.antt =====
-- The thread of the watcher (rust/src/watch.rs) and its application in concrete runs.
use hidpin.Base.{
  ℕ, Option, if◌then◌else◌, ◌≡◌, ◌≢◌, ◌≤◌, ◌⊎◌, refl, true, false, none, some, ◌++◌, zero, suc,
  List, [], ◌∷◌, length, arith,
}
use hidpin.Base.Text.{Text, text, text_eq}
use hidpin.Error.{ok, err, device_not_found}
use hidpin.Transport.{Host, waits}
use hidpin.Watch.Connect.{scan_later, reset_failures, drop_connection, drop_open}
use hidpin.Watch.Connect.Finding.{try_connect, found_devices, choose, list_devices}
use hidpin.Watch.Loop.{now, ◌>>=◌}
use hidpin.Watch.Runtime.{out_capacity, drive, asleep, over, hung, crashed, System}
use hidpin.Watch.Runtime.Answers.{reply_tickets, reply_tickets-Reached}
use hidpin.Watch.Runtime.Api
use hidpin.Watch.Runtime.Api.{WatchOptions, default_options, started, request_stop, submit, watch}
use hidpin.Watch.Runtime.Bounds.{length-Reached}
use hidpin.Watch.Runtime.Fields.{called_state}
use hidpin.Watch.Runtime.Queue.{QueueReached, halt, queue_of, ops_of, op_of}
use hidpin.Watch.Runtime.Refinement.{Reached-QueueReached}
use hidpin.Watch.Runtime.Safety.{Reached-alive}
use hidpin.Watch.Runtime.Steps.{
  Label, silent, asked, thread, calls, stops, Reached, watched, then_step,
}
use hidpin.Watch.Runtime.Stopping.{thread_steps, thread_steps-ends}
use hidpin.Watch.Runtime.Thread
use hidpin.Watch.Runtime.Thread.{thread_step, read_timeout}
use hidpin.Watch.Runtime.Wakeups.{Reached-rested}

-- A computer without a device; its clock stands still, and its state is the time.
abbrev no_devices : Host ℕ ℕ
no_devices = record {
  devices = λ e. (ok [], e);
  open_entry = λ entry e. (err (device_not_found none), e);
  read = λ handle buf timeout e. (waits, buf, e);
  read_fits = λ handle buf timeout e. tt;
  write = λ handle bytes e. (waits, e);
  get_feature_report = λ handle buf e. (waits, buf, e);
  send_feature_report = λ handle bytes e. (waits, e);
  get_input_report = λ handle buf e. (waits, buf, e);
  close = λ handle e. e;
  now = λ e. (e, e);
  wall_now = λ e. (e, e);
  seed_source = λ e. ((e, 1), e);
}

-- The application gives the bus.
abbrev given : WatchOptions
given = record default_options { has_bus = true }

abbrev no_vars : Text → Option Text
no_vars name = none

abbrev fresh : System ℕ ℕ
fresh = started given 1000 1000

fresh-Reached : Reached no_devices 1 given [] fresh
unfolding watch Api.watch_checked Api.check_options Api.check_rest Api.check_target_pins
    Api.first_beyond Api.check_active_low Api.check_then Api.check_bus
fresh-Reached = watched no_vars 1000 1000 fresh refl

-- The application asks for the stop, and the thread runs on.
abbrev halted : System ℕ ℕ
halted = request_stop fresh

halted-Reached : Reached no_devices 1 given (silent ∷ []) halted
halted-Reached = then_step [] silent fresh halted fresh-Reached (stops fresh)

Reached-alive_example : halted.phase ≢ crashed
Reached-alive_example = Reached-alive no_devices 1 given (silent ∷ []) halted halted-Reached

length-Reached_example : length halted.shared.out ≤ out_capacity
unfolding request_stop Api.notify started
length-Reached_example = length-Reached no_devices 1 given (silent ∷ []) halted halted-Reached refl

Reached-QueueReached_example : QueueReached (halt ∷ []) (queue_of halted)
unfolding ops_of op_of halted-Reached fresh-Reached
Reached-QueueReached_example =
    Reached-QueueReached no_devices 1 {options = given} {ls = silent ∷ []} {s = halted}
      halted-Reached

thread_steps-ends_example :
    ((thread_steps no_devices 1 5 halted).phase ≡ over)
    ⊎ ((thread_steps no_devices 1 5 halted).phase ≡ hung)
unfolding request_stop Api.notify Api.woken started
thread_steps-ends_example =
    thread_steps-ends no_devices 1 given (silent ∷ []) halted 5 halted-Reached refl (omega arith)

-- The thread looks for a device, finds none, and waits for the next look.
abbrev after : ℕ → System ℕ ℕ
after n = thread_steps no_devices 1 n fresh

abbrev and_silent : ℕ → List Label → List Label
and_silent zero ls = ls
and_silent (suc n) ls = and_silent n (ls ++ (silent ∷ []))

thread_steps-Reached :
    (n : ℕ) (ls : List Label) (s : System ℕ ℕ)
    → Reached no_devices 1 given ls s
    → Reached no_devices 1 given (and_silent n ls) (thread_steps no_devices 1 n s)
unfolding thread_steps
thread_steps-Reached zero ls s reached = reached
thread_steps-Reached (suc n) ls s reached =
    thread_steps-Reached n _ _ (then_step ls silent s _ reached (thread s))

asleep_after : (after 5).phase ≡ asleep (some 1_000_000_000)
unfolding started thread_steps thread_step Thread.step_from Thread.turn Thread.hand_over
    Thread.acted Thread.act Thread.act_at Thread.due Thread.scan_now Thread.idle Thread.wait_for
    Thread.next_at Thread.rest_or_turn Thread.is_busy try_connect found_devices choose list_devices
    scan_later reset_failures now ◌>>=◌
asleep_after = refl

Reached-rested_example :
    ((after 5).shared.requests ≡ [])
    × ((after 5).shared.stopping ≡ false)
    × (((after 5).loop.pending ≡ []) ⊎ (out_capacity ≤ length (after 5).shared.out))
Reached-rested_example =
    Reached-rested no_devices 1 given (and_silent 5 []) (after 5) (some 1_000_000_000)
      (thread_steps-Reached 5 [] fresh fresh-Reached) asleep_after

-- The application calls, then asks for the stop: the call is answered all the same.
abbrev called : System ℕ ℕ
called = called_state (record { ticket = 7; command = drive ((2, true) ∷ []) }) fresh

called-Reached : Reached no_devices 1 given (asked 7 ∷ []) called
unfolding submit started
called-Reached =
    then_step [] (asked 7) fresh called fresh-Reached
      (calls 7 (drive ((2, true) ∷ [])) fresh called refl)

abbrev finished : System ℕ ℕ
finished = thread_steps no_devices 1 3 (request_stop called)

finished-Reached :
    Reached no_devices 1 given (asked 7 ∷ (silent ∷ (silent ∷ (silent ∷ (silent ∷ []))))) finished
finished-Reached =
    thread_steps-Reached 3 (asked 7 ∷ (silent ∷ [])) (request_stop called)
      (then_step (asked 7 ∷ []) silent called (request_stop called) called-Reached (stops called))

finished_phase : finished.phase ≡ over
unfolding started request_stop Api.notify Api.woken thread_steps thread_step Thread.step_from
    Thread.turn Thread.hand_over Thread.left Thread.conclude drop_connection drop_open
finished_phase = refl

reply_tickets-Reached_example : reply_tickets finished.replies ≡ 7 ∷ []
reply_tickets-Reached_example =
    reply_tickets-Reached no_devices 1 given
      (asked 7 ∷ (silent ∷ (silent ∷ (silent ∷ (silent ∷ []))))) finished finished-Reached
      finished_phase

abbrev few_vars : Text → Option Text
few_vars name = if text_eq name (text "HIDPIN_PID") then some (text "0x6871") else none
