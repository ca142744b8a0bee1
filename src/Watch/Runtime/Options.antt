-- ===== src/Watch/Runtime/Options.antt =====
-- What `watch` of rust/src/watch.rs accepts.
use hidpin.Base.{
  ◌≤◌, ◌⊎◌, ℕ, ◌<◌, ◌^◌, ◌-◌, ◌≡◌, ◌≢◌, Bool, true, false, Option, none, some, [], All,
}
use hidpin.Base.Parse.{trim}
use hidpin.Base.Text.{Text, text}
use hidpin.Device.Ids.{parse_id, var_or_empty}
use hidpin.Error.{ok}
use hidpin.Protocol.Config.{validate_pin_config}
use hidpin.Protocol.Layout.{gpio_count}
use hidpin.Protocol.Pins.{PinConfig}
use hidpin.Protocol.ResultCode
use hidpin.Watch.Runtime.Api.{WatchOptions}

-- The target suits a board that has all GPIOs.
abbrev pub IsPossible : Option PinConfig → Type 0
IsPossible none = Unit
IsPossible (some target) = (validate_pin_config target (2 ^ gpio_count - 1)).0 ≡ ResultCode.ok

-- What `watch` asks of its options but for the bus.
abbrev IsSound : WatchOptions → Type 0
IsSound options =
    (options.scan_interval ≢ 0)
    × IsPossible options.target_pins
    × All (λ p. p.0 < gpio_count) options.active_low

-- A variable of the environment that names a USB id is missing or blank, or it is a number of 16 bits.
abbrev pub IsUsbId : Text → Type 0
IsUsbId shown = (shown ≡ []) ⊎ ((value : ℕ) × (parse_id shown ≡ some value) × (value ≤ 0xFFFF))

abbrev pub shown_var : (Text → Option Text) → Text → Text
shown_var vars name = trim (var_or_empty (vars name))

-- Either the application gives a bus, or the environment names no USB id that is bad.
abbrev pub IsBus : Bool → (Text → Option Text) → Type 0
IsBus true vars = Unit
IsBus false vars =
    IsUsbId (shown_var vars (text "HIDPIN_VID")) × IsUsbId (shown_var vars (text "HIDPIN_PID"))

-- What `watch` asks of its options and the environment.
abbrev pub IsAccepted : (Text → Option Text) → WatchOptions → Type 0
IsAccepted vars options = IsSound options × IsBus options.has_bus vars
