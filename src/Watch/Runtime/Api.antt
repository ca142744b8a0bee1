-- ===== src/Watch/Runtime/Api.antt =====
-- The application side of rust/src/watch.rs: `watch`, and the methods of `Watcher`. A method that
-- waits is a sequence of attempts; `notify_all` ends the wait of the thread.
use hidpin.Base.{
  ℕ, ◌-◌, ◌^◌, ◌==◌, Bool, true, false, ◌||◌, Option, none, some, List, [], ◌∷◌, ◌++◌, leb,
  if◌then◌else◌,
}
use hidpin.Base.Maps.{Map}
use hidpin.Base.Text.{Text, text}
use hidpin.Device.Ids.{usb_ids}
use hidpin.Error.{Error, Result, ok, err, watcher_closed, pin_config_rejected, invalid_argument}
use hidpin.Protocol.Config.{validate_pin_config}
use hidpin.Protocol.Layout.{gpio_count, out_of_range}
use hidpin.Protocol.Pins.{PinConfig, unused_config}
use hidpin.Protocol.ResultCode
use hidpin.Watch.Events.{Event}
use hidpin.Watch.Runtime.{Command, drive, retarget, Phase, turning, asleep, System}

-- `struct WatchOptions`. Of the bus the options tell whether the application gives one; that bus, or
-- else the bus of the system, is the world behind the host.
pub record WatchOptions : Type 0 where
  pub serial : Option Text
  pub target_pins : Option PinConfig
  pub active_low : Map Bool
  pub scan_interval : ℕ
  pub has_bus : Bool

-- `WatchOptions::default`
abbrev pub default_options : WatchOptions
default_options = record {
  serial = none;
  target_pins = none;
  active_low = [];
  scan_interval = 1_000_000_000;
  has_bus = false;
}

-- A pin configuration against all GPIOs that a board can have.
unfoldable pub check_pins : PinConfig → Result (Unit {0})
check_pins config =
    let (result, gpio) = validate_pin_config config (2 ^ gpio_count - 1) in
    if result == ResultCode.ok then ok tt else err (pin_config_rejected result gpio true)

unfoldable pub check_target_pins : Option PinConfig → Result (Unit {0})
check_target_pins none = ok tt
check_target_pins (some target) = check_pins target

-- The first key that is no GPIO.
unfoldable pub first_beyond : Map Bool → Option ℕ
first_beyond [] = none
first_beyond ((gpio, on) ∷ rest) = if leb gpio_count gpio then some gpio else first_beyond rest

unfoldable pub check_active_low : Option ℕ → Result (Unit {0})
check_active_low none = ok tt
check_active_low (some gpio) = err (invalid_argument (out_of_range gpio))

unfoldable pub check_rest : WatchOptions → Result (Unit {0}) → Result (Unit {0})
check_rest options (err e) = err e
check_rest options (ok u) = check_active_low (first_beyond options.active_low)

-- The bus of the system is usable only with good USB ids in the environment.
unfoldable pub check_bus : Bool → (Text → Option Text) → Result (Unit {0})
check_bus true vars = ok tt
check_bus false vars = elim (usb_ids vars) [ err e ↦ err e | ok ids ↦ ok tt ]

unfoldable pub check_then : Result (Unit {0}) → Result (Unit {0}) → Result (Unit {0})
check_then (err e) more = err e
check_then (ok u) more = more

-- What `watch` checks of its options but for the bus.
unfoldable pub check_options : WatchOptions → Result (Unit {0})
check_options options =
    if options.scan_interval == 0
    then err (invalid_argument (text "the scan interval must be positive"))
    else check_rest options (check_target_pins options.target_pins)

unfoldable pub woken : Phase → Phase
woken (asleep wait) = turning
woken phase = phase

module _ {E H : Type 0} where
  -- The watcher that `watch` starts, at the time `t`.
  unfoldable pub started : WatchOptions → ℕ → E → System E H
  started options t env = record {
    shared = record { out = []; requests = []; stopping = false; finished = false; error = none };
    phase = turning;
    loop = record {
      serial = options.serial;
      target = options.target_pins;
      active_low = options.active_low;
      interval = options.scan_interval;
      pending = [];
      info = none;
      config = unused_config;
      known = [];
      ever_connected = false;
      conn = none;
      failure = [];
      failures = 0;
      restore_count = 0;
      last_restore = none;
      scan_at = some t;
      restore_at = none;
      settle_at = none;
      env = env;
    };
    replies = [];
  }

  unfoldable pub watch_checked : WatchOptions → ℕ → E → Result (Unit {0}) → Result (System E H)
  watch_checked options t env (err e) = err e
  watch_checked options t env (ok u) = ok (started options t env)

  -- `watch`, where `vars` are the variables of the environment.
  unfoldable pub watch : (Text → Option Text) → WatchOptions → ℕ → E → Result (System E H)
  watch vars options t env =
      watch_checked options t env
        (check_then (check_options options) (check_bus options.has_bus vars))

  -- `changed.notify_all()`
  unfoldable pub notify : System E H → System E H
  notify s = record s { phase = woken s.phase }

-- What one attempt of `take` comes to: an event, the end of the watcher, the end of the time, or a
-- wait for a change, for at most some time.
pub data Attempt : Type 0 where
  got : Event → Attempt
  ended expired : Attempt
  waits : Option ℕ → Attempt

unfoldable pub time_left : Option ℕ → ℕ → Attempt
time_left none now = waits none
time_left (some deadline) now = if leb deadline now then expired else waits (some (deadline - now))

module _ {E H : Type 0} where
  unfoldable pub take_from : List Event → Option ℕ → ℕ → System E H → Attempt × System E H
  take_from (event ∷ out) deadline now s =
      (got event, notify (record s { shared = record s.shared { out = out } }))
  take_from [] deadline now s = (if s.shared.finished then ended else time_left deadline now, s)

  -- One round of the loop of `take`.
  unfoldable pub take : Option ℕ → ℕ → System E H → Attempt × System E H
  take deadline now s = take_from s.shared.out deadline now s

  -- `close`, but for the wait for the thread.
  unfoldable pub request_stop : System E H → System E H
  request_stop s = notify (record s { shared = record s.shared { stopping = true } })

  -- `call` up to the wait for the answer; `ticket` is the channel that it made.
  unfoldable pub submit : ℕ → Command → System E H → Result (System E H)
  submit ticket command s =
      if s.shared.finished || s.shared.stopping
      then err watcher_closed
      else ok (
          notify (record s {
            shared = record s.shared {
              requests = s.shared.requests ++ (record { ticket = ticket; command = command } ∷ []);
            };
          }))

  -- `set_outputs`
  unfoldable pub set_outputs : ℕ → List (ℕ × Bool) → System E H → Result (System E H)
  set_outputs ticket levels s = submit ticket (drive levels) s

  unfoldable pub submit_checked :
      ℕ → PinConfig → System E H → Result (Unit {0}) → Result (System E H)
  submit_checked ticket config s (err e) = err e
  submit_checked ticket config s (ok u) = submit ticket (retarget config) s

  -- `set_target_pins`
  unfoldable pub set_target_pins : ℕ → PinConfig → System E H → Result (System E H)
  set_target_pins ticket config s = submit_checked ticket config s (check_pins config)

  -- `error`
  unfoldable pub error : System E H → Option Error
  error s = s.shared.error
