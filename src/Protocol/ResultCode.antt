-- ===== src/Protocol/ResultCode.antt =====
-- `ResultCode` of rust/src/protocol.rs, a byte: the outcome of a pin configuration Set.
use hidpin.Base.{ℕ, ◌++◌, ◌==◌, if◌then◌else◌}
use hidpin.Base.Text.{Text, text, decimal}

abbrev pub ok : ℕ
ok = 0

abbrev pub bad_length : ℕ
bad_length = 1

abbrev pub bad_mode : ℕ
bad_mode = 2

abbrev pub unavailable_gpio : ℕ
unavailable_gpio = 3

abbrev pub unused_with_param : ℕ
unused_with_param = 4

abbrev pub bad_output_level : ℕ
bad_output_level = 5

-- The GPIO of a result that is about none.
abbrev pub result_gpio_none : ℕ
result_gpio_none = 0xff

-- `ResultCode::message`
unfoldable pub message : ℕ → Text
message r =
    if r == ok
    then text "applied"
    else if r == bad_length
    then text "the payload is not 63 bytes long"
    else if r == bad_mode
    then text "mode is outside 0-4"
    else if r == unavailable_gpio
    then text "the pin is not an available GPIO"
    else if r == unused_with_param
    then text "an unused pin was given a parameter"
    else if r == bad_output_level
    then text "the initial output level is neither 0 nor 1"
    else text "result " ++ decimal r
