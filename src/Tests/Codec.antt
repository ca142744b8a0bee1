-- ===== src/Tests/Codec.antt =====
-- The formats of rust/src/protocol.rs at concrete reports.
use hidpin.Base.{
  ℕ, zero, suc, ◌≡◌, ◌<◌, refl, true, false, List, [], ◌∷◌, take, All, arith, ◌≢◌, replicate,
}
use hidpin.Base.Bits.{bit}
use hidpin.Base.Bytes.{AllBytes, from_le_bytes, slice}
use hidpin.Error.{ok, ◌>>=◌}
use hidpin.Protocol.Config
use hidpin.Protocol.Config.{
  PinConfigReport, decode_pin_config, validate_pin_config, validate_pin_config_payload,
  check_settings, check_setting,
}
use hidpin.Protocol.Config.Accepted.{
  ConfigAllowed, Accepts, validate-encode, validate-default_for, validate_pin_config-Accepts,
  validated_decodes,
}
use hidpin.Protocol.Config.RoundTrip
use hidpin.Protocol.Config.RoundTrip.{decode_pin_config-Decodes, decode-encode_pin_config}
use hidpin.Protocol.Config.Validate.{
  SettingAllowed, Validates, validate_pin_config_payload-Validates,
}
use hidpin.Protocol.Info
use hidpin.Protocol.Info.{DeviceInfo, decode_device_info}
use hidpin.Protocol.Info.RoundTrip.{decode-encode_device_info}
use hidpin.Protocol.Layout.{default_debounce_ms, u16_at, u32_at, u64_at, sdk_board_len}
use hidpin.Protocol.Output.{encode_output, decode_output, decode-encode_output}
use hidpin.Protocol.Pins.{
  PinConfig, pull_up_setting, output_setting, unused_setting, setting_at, to_u8, is_monitored,
  default_for, with_pins, monitored_mask,
}
use hidpin.Protocol.Pins.Masks.{bit-monitored_mask, setting_at-default_for}
use hidpin.Protocol.Pins.Update.{Replaces, with_pins-Replaces}
use hidpin.Protocol.ResultCode
use hidpin.Protocol.Status
use hidpin.Protocol.Status.{StatusReport, EdgeEvent, decode_status, too_many_events}
use hidpin.Protocol.Status.RoundTrip.{decode-encode_status}
use hidpin.Protocol.Status.Shape
use hidpin.Protocol.Status.Shape.{decode_status-Decodes, encode-decode_status}

abbrev pico : ℕ
pico = 0x1c7f_ffff

abbrev two_events : StatusReport
two_events = record {
  seq = 517;
  reason = 1;
  flags = 2;
  monitored = pico;
  outputs = 0;
  levels = 0x10_0008;
  timestamp_us = 5_000_000_000;
  events =
      record { gpio = 3; level = true; age_us = 1500 }
      ∷ (record { gpio = 20; level = false; age_us = 4_294_967_295 } ∷ []);
}

abbrev two_events-InRange : Status.RoundTrip.InRange two_events
two_events-InRange = record {
  seq_range = omega arith;
  monitored_range = omega arith;
  outputs_range = omega arith;
  levels_range = omega arith;
  timestamp_range = omega arith;
  events_range = (
    record { gpio_range = omega arith; age_range = omega arith },
    (record { gpio_range = omega arith; age_range = omega arith }, tt),
  );
}

decode-encode_status_example : (Status.encode two_events >>= decode_status) ≡ ok two_events
decode-encode_status_example = decode-encode_status two_events two_events-InRange

abbrev one_output : PinConfig
one_output = pull_up_setting 20 ∷ (output_setting true ∷ replicate 28 unused_setting)

abbrev one_output_report : PinConfigReport
one_output_report = record { result = 0; result_gpio = 255; request_id = 7; config = one_output }

decode-encode_pin_config_example :
    decode_pin_config (Config.encode one_output_report) ≡ ok one_output_report
decode-encode_pin_config_example = decode-encode_pin_config one_output_report refl

decode_pin_config-Decodes_example :
    Config.RoundTrip.Decodes
      (Config.encode one_output_report)
      (decode_pin_config (Config.encode one_output_report))
decode_pin_config-Decodes_example = decode_pin_config-Decodes (Config.encode one_output_report)

validate_pin_config_payload-Validates_example :
    Validates
      (Config.encode one_output_report)
      1
      (validate_pin_config_payload (Config.encode one_output_report) 1)
validate_pin_config_payload-Validates_example =
    validate_pin_config_payload-Validates (Config.encode one_output_report) 1

validate_pin_config-Accepts_example : Accepts one_output 1 (validate_pin_config one_output 1)
validate_pin_config-Accepts_example = validate_pin_config-Accepts one_output 1 refl

validate-encode_example :
    let (code, gpio) = validate_pin_config one_output pico in
    validate_pin_config_payload (Config.encode one_output_report) pico ≡ (code, gpio, 7)
validate-encode_example = validate-encode one_output_report pico refl

validate-default_for_example :
    SettingAllowed pico 3
      (to_u8 (setting_at (default_for pico) 3).mode)
      (setting_at (default_for pico) 3).param
validate-default_for_example = validate-default_for pico 3 (omega arith)

accepted :
    validate_pin_config_payload (Config.encode one_output_report) pico ≡ (ResultCode.ok, 255, 7)
unfolding validate_pin_config_payload Config.encode check_settings check_setting to_u8 bit
accepted = refl

validated_decodes_example :
    (r : PinConfigReport) × (decode_pin_config (Config.encode one_output_report) ≡ ok r)
    × ConfigAllowed pico r.config
validated_decodes_example = validated_decodes (Config.encode one_output_report) pico 255 7 accepted

setting_at-default_for_example :
    setting_at (default_for pico) 3 ≡ pull_up_setting default_debounce_ms
unfolding bit
setting_at-default_for_example = setting_at-default_for pico 3

bit-monitored_mask_example : bit (monitored_mask one_output) 0 ≡ true
unfolding is_monitored
bit-monitored_mask_example = bit-monitored_mask one_output 0

with_pins-Replaces_example :
    Replaces one_output ((1, unused_setting) ∷ []) (with_pins one_output ((1, unused_setting) ∷ []))
with_pins-Replaces_example = with_pins-Replaces one_output ((1, unused_setting) ∷ []) refl

decode-encode_output_example : decode_output (encode_output 0x30 0x10) ≡ ok (0x30, 0x10)
decode-encode_output_example = decode-encode_output 0x30 0x10 (omega arith) (omega arith)

-- A payload of 63 zero bytes is a report without events.
abbrev zeros : List ℕ
zeros = replicate 63 0

abbrev zeros-AllBytes : (n : ℕ) → AllBytes (replicate n 0)
zeros-AllBytes zero = tt
zeros-AllBytes (suc n) = (omega arith, zeros-AllBytes n)

decode_status-Decodes_example : Status.Shape.Decodes zeros (decode_status zeros)
decode_status-Decodes_example = decode_status-Decodes zeros (zeros-AllBytes 63)

abbrev no_events : StatusReport
no_events = record {
  seq = 0;
  reason = 0;
  flags = 0;
  monitored = 0;
  outputs = 0;
  levels = 0;
  timestamp_us = 0;
  events = [];
}

zeros-decoded : decode_status zeros ≡ ok no_events
unfolding decode_status u16_at u32_at u64_at Status.read_events from_le_bytes slice
zeros-decoded = refl

encode-decode_status_example : (Status.encode no_events >>= decode_status) ≡ ok no_events
encode-decode_status_example =
    encode-decode_status zeros no_events (zeros-AllBytes 63) zeros-decoded

abbrev small_board : DeviceInfo
small_board = record {
  protocol_version = 1;
  firmware_major = 0;
  firmware_minor = 1;
  firmware_patch = 0;
  board = 1;
  gpio_total = 30;
  periodic_interval_ms = 1000;
  available = pico;
  events_limit = 7;
  event_queue_size = 64;
  chip = 1;
  chip_revision = 2;
  quirks = 0;
  sdk_board = 112 ∷ (105 ∷ (99 ∷ (111 ∷ [])));
}

decode-encode_device_info_example :
    decode_device_info (Info.encode small_board)
    ≡ ok (record small_board { sdk_board = take sdk_board_len small_board.sdk_board })
decode-encode_device_info_example =
    decode-encode_device_info small_board
      (record { interval_range = omega arith; available_range = omega arith }) printable
  where
    printable : All (λ b. (b ≢ 0) × (b < 128)) small_board.sdk_board
    printable = (
      ((λ h. omega arith), omega arith),
      (
        ((λ h. omega arith), omega arith),
        (((λ h. omega arith), omega arith), (((λ h. omega arith), omega arith), tt)),
      ),
    )
