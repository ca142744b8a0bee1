-- ===== src/Protocol/Pins.antt =====
-- Pin modes, pin settings and pin configurations of rust/src/protocol.rs, and GPIO masks.
pub mod Masks
pub mod Equality
pub mod Form
pub mod Update
use hidpin.Base.{
  ℕ, zero, suc, ◌+◌, ◌^◌, Bool, true, false, ◌&&◌, not, List, [], ◌∷◌, ◌++◌, ltb, leb, ◌==◌,
  if◌then◌else◌, get_or, set, replicate, filter, range, bit_or,
}
use hidpin.Base.Bits.{bit}
use hidpin.Base.Text.{Text, text, decimal}
use hidpin.Error.{Result, ok, err, malformed, invalid_argument, ◌>>=◌}
use hidpin.Protocol.Layout.{gpio_count, default_debounce_ms, out_of_range}

pub data PinMode : Type 0 where
  unused input pull_up pull_down output : PinMode

-- True for the monitored modes.
unfoldable pub is_input : PinMode → Bool
is_input input = true
is_input pull_up = true
is_input pull_down = true
is_input _ = false

-- `mode as u8`
unfoldable pub to_u8 : PinMode → ℕ
to_u8 unused = 0
to_u8 input = 1
to_u8 pull_up = 2
to_u8 pull_down = 3
to_u8 output = 4

-- `TryFrom<u8>`
unfoldable pub try_from : ℕ → Result PinMode
try_from value =
    if value == 0
    then ok unused
    else if value == 1
    then ok input
    else if value == 2
    then ok pull_up
    else if value == 3
    then ok pull_down
    else if value == 4
    then ok output
    else err (malformed (text "mode " ++ (decimal value ++ text " is undefined")))

-- The name that `{mode:?}` prints.
mode_name : PinMode → Text
mode_name unused = text "Unused"
mode_name input = text "Input"
mode_name pull_up = text "PullUp"
mode_name pull_down = text "PullDown"
mode_name output = text "Output"

unfoldable pub mode_eq : PinMode → PinMode → Bool
unfolding to_u8
mode_eq m n = to_u8 m == to_u8 n

pub record PinSetting : Type 0 where
  pub mode : PinMode
  pub param : ℕ

abbrev pub unused_setting : PinSetting
unused_setting = record { mode = unused; param = 0 }

-- `PinSetting::monitor`
unfoldable pub monitor : PinMode → ℕ → Result PinSetting
unfolding is_input mode_name
monitor m debounce_ms =
    if not (is_input m)
    then err (invalid_argument (mode_name m ++ text " is not an input mode"))
    else ok (record { mode = m; param = debounce_ms })

-- `PinSetting::pull_up`
abbrev pub pull_up_setting : ℕ → PinSetting
pull_up_setting debounce_ms = record { mode = pull_up; param = debounce_ms }

-- `PinSetting::pull_down`
abbrev pub pull_down_setting : ℕ → PinSetting
pull_down_setting debounce_ms = record { mode = pull_down; param = debounce_ms }

-- `PinSetting::no_pull`
abbrev pub no_pull_setting : ℕ → PinSetting
no_pull_setting debounce_ms = record { mode = input; param = debounce_ms }

-- `PinSetting::output`
abbrev pub output_setting : Bool → PinSetting
output_setting initial_high = record { mode = output; param = if initial_high then 1 else 0 }

unfoldable pub is_monitored : PinSetting → Bool
unfolding is_input
is_monitored s = is_input s.mode

unfoldable pub is_output : PinSetting → Bool
unfolding mode_eq
is_output s = mode_eq s.mode output

unfoldable pub setting_eq : PinSetting → PinSetting → Bool
unfolding mode_eq
setting_eq s t = mode_eq s.mode t.mode && s.param == t.param

-- `[PinSetting; GPIO_COUNT]`: a list of 30 settings, indexed by GPIO number.
abbrev pub PinConfig : Type 0
PinConfig = List PinSetting

-- `config[gpio]`; the program panics at a GPIO of 30 or more.
abbrev pub setting_at : PinConfig → ℕ → PinSetting
setting_at config gpio = get_or config gpio unused_setting

unfoldable pub config_eq : PinConfig → PinConfig → Bool
unfolding setting_eq
config_eq [] [] = true
config_eq [] (t ∷ d) = false
config_eq (s ∷ c) [] = false
config_eq (s ∷ c) (t ∷ d) = setting_eq s t && config_eq c d

-- The GPIO numbers whose bit is set, ascending.
unfoldable pub mask_to_gpios : ℕ → List ℕ
unfolding bit
mask_to_gpios mask = filter (bit mask) (range 0 gpio_count)

-- `PinConfig::unused`
unfoldable pub unused_config : PinConfig
unused_config = replicate gpio_count unused_setting

set_all : PinConfig → List ℕ → PinSetting → PinConfig
set_all config [] s = config
set_all config (gpio ∷ gpios) s = set_all (set config gpio s) gpios s

-- `PinConfig::default_for`
unfoldable pub default_for : ℕ → PinConfig
unfolding set_all unused_config mask_to_gpios
default_for available =
    set_all unused_config (mask_to_gpios available) (pull_up_setting default_debounce_ms)

-- `PinConfig::with_pin`
unfoldable pub with_pin : PinConfig → ℕ → PinSetting → Result PinConfig
with_pin config gpio s =
    if leb gpio_count gpio
    then err (invalid_argument (out_of_range gpio))
    else ok (set config gpio s)

-- `PinConfig::with_pins`
unfoldable pub with_pins : PinConfig → List (ℕ × PinSetting) → Result PinConfig
unfolding with_pin
with_pins config [] = ok config
with_pins config ((gpio, s) ∷ settings) = with_pin config gpio s >>= λ c. with_pins c settings

-- `PinConfig::mask`: the fold over the settings from GPIO `gpio` on.
unfoldable pub mask_from : (PinSetting → Bool) → ℕ → PinConfig → ℕ → ℕ
mask_from matches gpio [] acc = acc
mask_from matches gpio (s ∷ config) acc =
    mask_from matches (suc gpio) config (if matches s then bit_or acc (2 ^ gpio) else acc)

unfoldable pub monitored_mask : PinConfig → ℕ
unfolding mask_from is_monitored
monitored_mask config = mask_from is_monitored 0 config 0

unfoldable pub outputs_mask : PinConfig → ℕ
unfolding mask_from is_output
outputs_mask config = mask_from is_output 0 config 0

-- GPIOs monitored with the internal pull-down, ascending.
unfoldable pub pull_down_gpios : PinConfig → List ℕ
unfolding mask_from mask_to_gpios mode_eq
pull_down_gpios config = mask_to_gpios (mask_from (λ s. mode_eq s.mode pull_down) 0 config 0)
