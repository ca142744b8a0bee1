-- ===== src/Watch/Events.antt =====
-- The events of a watcher (rust/src/watch.rs), and the pins that a configuration write drives.
pub mod Driven
use hidpin.Base.{ℕ, Bool, true, false, not, ◌&&◌, Option, List, filter, range}
use hidpin.Base.Maps.{Map}
use hidpin.Base.Text.{Text, text}
use hidpin.Error.{Error}
use hidpin.Protocol.Info.{DeviceInfo}
use hidpin.Protocol.Layout.{gpio_count}
use hidpin.Protocol.Pins.{PinConfig, setting_at, setting_eq, is_output}
use hidpin.Protocol.Status.{StatusReport}

pub data OutputResetCause : Type 0 where
  suspend reconnect pin_config : OutputResetCause

-- `OutputResetCause::description`
unfoldable pub description : OutputResetCause → Text
description suspend = text "USB suspend or bus reset"
description reconnect = text "reconnected"
description pin_config = text "pin configuration written"

-- `struct OnOffChange`; `time` is in nanoseconds of the host's wall clock.
pub record OnOffChange : Type 0 where
  pub gpio : ℕ
  pub on : Bool
  pub level : Bool
  pub time : Option ℕ
  pub device_us : Option ℕ
  pub inferred : Bool

-- `enum Event`
pub data Event : Type 0 where
  -- serial, path, info, pin_config, reconnected
  connected : Text → Text → DeviceInfo → PinConfig → Bool → Event
  disconnected : Error → Event
  connect_failed : Error → Event
  -- status, missed, on
  status_received : StatusReport → ℕ → Map Bool → Event
  initial_on_off : Map Bool → Event
  on_off_change : OnOffChange → Event
  outputs_reset : List ℕ → OutputResetCause → Event
  pin_config_changed : PinConfig → Event
  -- found, count
  pin_config_restored : PinConfig → ℕ → Event

-- The pins that writing `new` over `prev` drives to their initial output level.
unfoldable pub driven_outputs : PinConfig → PinConfig → List ℕ
driven_outputs prev new =
    filter
      (λ g. is_output (setting_at new g) && not (setting_eq (setting_at prev g) (setting_at new g)))
      (range 0 gpio_count)
