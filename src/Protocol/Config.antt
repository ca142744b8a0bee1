-- ===== src/Protocol/Config.antt =====
-- The pin configuration report of rust/src/protocol.rs, report ID 3: encoding, decoding, and the
-- validation that the device does on a Set payload.
pub mod Payload
pub mod RoundTrip
pub mod Validate
pub mod Accepted
use hidpin.Base.{
  ℕ, zero, suc, ◌+◌, ◌*◌, Bool, true, false, not, ◌&&◌, List, [], ◌∷◌, ◌++◌, ltb, ◌==◌,
  if◌then◌else◌, length, get_or, set, replicate,
}
use hidpin.Base.Bits.{bit}
use hidpin.Base.Bytes.{byte_at}
use hidpin.Base.Text.{text, decimal}
use hidpin.Error.{Error, Result, ok, err, malformed, invalid_argument, ◌>>=◌}
use hidpin.Protocol.Layout.{report_payload_len, pin_config_offset, gpio_count, wrong_length}
use hidpin.Protocol.Pins.{PinMode, PinSetting, PinConfig, to_u8, try_from, unused_config}
use hidpin.Protocol.ResultCode
use hidpin.Protocol.ResultCode.{result_gpio_none}

pub record PinConfigReport : Type 0 where
  pub result : ℕ
  pub result_gpio : ℕ
  pub request_id : ℕ
  pub config : PinConfig

abbrev pub mode_offset : ℕ → ℕ
mode_offset gpio = pin_config_offset + 2 * gpio

abbrev pub param_offset : ℕ → ℕ
param_offset gpio = pin_config_offset + 2 * gpio + 1

-- The settings of GPIO `gpio` and on, two bytes each.
unfoldable pub write_settings : ℕ → PinConfig → List ℕ → List ℕ
write_settings gpio [] p = p
write_settings gpio (s ∷ config) p =
    write_settings (suc gpio) config
      (set (set p (mode_offset gpio) (to_u8 s.mode)) (param_offset gpio) s.param)

-- The three bytes before the settings, and the rest still zero.
unfoldable pub encode_head : PinConfigReport → List ℕ
encode_head r =
    set (set (set (replicate report_payload_len 0) 0 r.result) 1 r.result_gpio) 2 r.request_id

-- `PinConfigReport::encode`
unfoldable pub encode : PinConfigReport → List ℕ
unfolding write_settings encode_head
encode r = write_settings 0 r.config (encode_head r)

abbrev or_undefined : Result PinMode → ℕ → ℕ → Result PinMode
or_undefined (ok m) value gpio = ok m
or_undefined (err e) value gpio = err (
    malformed (
      text "mode "
      ++ (decimal value ++ (text " of GPIO" ++ (decimal gpio ++ text " is undefined")))))

-- `for gpio in gpio..gpio + n`
unfoldable pub read_settings : List ℕ → ℕ → ℕ → PinConfig → Result PinConfig
read_settings p gpio zero config = ok config
read_settings p gpio (suc n) config =
    or_undefined (try_from (byte_at p (mode_offset gpio))) (byte_at p (mode_offset gpio)) gpio
    >>= λ m.
        read_settings p (suc gpio) n
          (set config gpio (record { mode = m; param = byte_at p (param_offset gpio) }))

unfoldable pub decode_pin_config : List ℕ → Result PinConfigReport
decode_pin_config p =
    if not (length p == report_payload_len)
    then err (malformed (wrong_length (text "pin config") report_payload_len (length p)))
    else read_settings p 0 gpio_count unused_config >>= λ config. ok (record {
      result = byte_at p 0;
      result_gpio = byte_at p 1;
      request_id = byte_at p 2;
      config = config;
    })

-- Builds the payload that the host writes.
unfoldable pub encode_pin_config_set : PinConfig → ℕ → Result (List ℕ)
encode_pin_config_set config request_id =
    if request_id == 0
    then err (invalid_argument (text "request_id must be between 1 and 255"))
    else ok (
        encode (record {
          result = ResultCode.ok;
          result_gpio = result_gpio_none;
          request_id = request_id;
          config = config;
        }))

-- What is wrong with the setting of one GPIO: `mode` and `param` are its two bytes.
unfoldable pub check_setting : ℕ → ℕ → ℕ → ℕ → ℕ
check_setting available gpio mode param =
    if ltb 4 mode
    then ResultCode.bad_mode
    else if not (bit available gpio) && not (mode == 0)
    then ResultCode.unavailable_gpio
    else if mode == 0 && not (param == 0)
    then ResultCode.unused_with_param
    else if mode == 4 && ltb 1 param
    then ResultCode.bad_output_level
    else ResultCode.ok

-- The loop over the GPIOs from `gpio` on: the first that is wrong ends it.
unfoldable pub check_settings : List ℕ → ℕ → ℕ → ℕ → ℕ × ℕ
check_settings p available gpio zero = (ResultCode.ok, result_gpio_none)
check_settings p available gpio (suc n) =
    let rest = check_settings p available (suc gpio) n in
    let code =
      check_setting available gpio (byte_at p (mode_offset gpio)) (byte_at p (param_offset gpio)) in
    if code == ResultCode.ok then rest else (code, gpio)

-- Repeats the validation of a Set payload: the result, the GPIO it refers to, and the request_id,
-- which is 0 where the payload has no third byte.
unfoldable pub validate_pin_config_payload : List ℕ → ℕ → ℕ × ℕ × ℕ
validate_pin_config_payload p available =
    if not (length p == report_payload_len)
    then (ResultCode.bad_length, result_gpio_none, byte_at p 2)
    else let (code, gpio) = check_settings p available 0 gpio_count in (code, gpio, byte_at p 2)

-- Validates a pin configuration the way the device would.
unfoldable pub validate_pin_config : PinConfig → ℕ → ℕ × ℕ
validate_pin_config config available =
    let (code, gpio, _) =
      validate_pin_config_payload
        (encode (record {
          result = ResultCode.ok;
          result_gpio = result_gpio_none;
          request_id = 1;
          config = config;
        }))
        available in
    (code, gpio)
