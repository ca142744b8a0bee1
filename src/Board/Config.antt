-- ===== src/Board/Config.antt =====
-- A pin configuration Set on the simulated board of rust/src/testing.rs: `write_config`.
use hidpin.Base.{ℕ, zero, suc, ◌^◌, ◌&&◌, ◌||◌, List, [], ◌==◌, if◌then◌else◌, bit_and}
use hidpin.Error.{Result, ok, err}
use hidpin.Protocol.Config.{PinConfigReport, decode_pin_config, validate_pin_config_payload}
use hidpin.Protocol.Flags
use hidpin.Protocol.Layout.{gpio_count}
use hidpin.Protocol.Pins.{
  PinConfig, PinSetting, is_monitored, is_output, mode_eq, setting_eq, config_eq, setting_at,
}
use hidpin.Protocol.ResultCode
use hidpin.Protocol.ResultCode.{result_gpio_none}
use hidpin.Board.{Board, replace_bit, send}

-- The levels that a new configuration leaves at GPIOs `gpio` to `gpio + n - 1`.
unfoldable pub new_level : ℕ → ℕ → PinSetting → PinSetting → ℕ → ℕ
new_level inputs gpio prev next levels =
    if setting_eq prev next
      || (is_monitored prev && (is_monitored next && mode_eq prev.mode next.mode))
    then levels
    else if is_monitored next
    then replace_bit levels (2 ^ gpio) (bit_and inputs (2 ^ gpio))
    else if is_output next
    then replace_bit levels (2 ^ gpio) (if next.param == 0 then 0 else 2 ^ gpio)
    else replace_bit levels (2 ^ gpio) 0

unfoldable pub new_levels : ℕ → PinConfig → PinConfig → ℕ → ℕ → ℕ → ℕ
new_levels inputs prev next gpio zero levels = levels
new_levels inputs prev next gpio (suc n) levels =
    new_levels inputs prev next (suc gpio) n
      (new_level inputs gpio (setting_at prev gpio) (setting_at next gpio) levels)

unfoldable pub apply_config : PinConfig → Board → Board
apply_config next b =
    if config_eq next b.config
    then b
    else send Flags.config_changed [] (record b {
      config = next;
      levels = new_levels b.inputs b.config next 0 gpio_count b.levels;
    })

-- The configuration of a payload that validation accepted: `expect("validated")`.
abbrev pub decoded_config : Result PinConfigReport → PinConfig → PinConfig
decoded_config (ok r) old = r.config
decoded_config (err e) old = old

-- `write_config`
unfoldable pub write_config : List ℕ → Board → Board
write_config payload b =
    let (result, gpio, request_id) = validate_pin_config_payload payload b.info.available in
    let noted = record b { result = result; result_gpio = gpio; request_id = request_id } in
    if result == ResultCode.ok
    then apply_config (decoded_config (decode_pin_config payload) b.config) noted
    else noted
