-- ===== src/Protocol/Layout.antt =====
-- The constants of rust/src/protocol.rs, and its reads of little-endian words in a payload.
use hidpin.Base.{ℕ, ◌+◌, ◌-◌, ◌^◌, List, ◌++◌}
use hidpin.Base.Bytes.{slice, from_le_bytes}
use hidpin.Base.Text.{Text, text, decimal}

abbrev pub report_id_status : ℕ
report_id_status = 0x01

abbrev pub report_id_device_info : ℕ
report_id_device_info = 0x02

abbrev pub report_id_pin_config : ℕ
report_id_pin_config = 0x03

abbrev pub report_id_output : ℕ
report_id_output = 0x04

abbrev pub report_payload_len : ℕ
report_payload_len = 63

abbrev pub output_payload_len : ℕ
output_payload_len = 8

abbrev pub report_len : ℕ
report_len = 1 + report_payload_len

abbrev pub gpio_count : ℕ
gpio_count = 30

abbrev pub events_per_report : ℕ
events_per_report = 7

abbrev pub default_debounce_ms : ℕ
default_debounce_ms = 20

abbrev pub saturated_age_us : ℕ
saturated_age_us = 0xffff_ffff

abbrev pub sdk_board_len : ℕ
sdk_board_len = 40

abbrev pub status_events_offset : ℕ
status_events_offset = 28

abbrev pub event_len : ℕ
event_len = 5

abbrev pub sdk_board_offset : ℕ
sdk_board_offset = 17

abbrev pub pin_config_offset : ℕ
pin_config_offset = 3

-- The mask of every GPIO number.
abbrev pub all_gpios : ℕ
all_gpios = 2 ^ gpio_count - 1

-- Payloads are 63 bytes long where these are read, so no index is out of bounds.
unfoldable pub u16_at : List ℕ → ℕ → ℕ
u16_at p i = from_le_bytes (slice p i 2)

unfoldable pub u32_at : List ℕ → ℕ → ℕ
u32_at p i = from_le_bytes (slice p i 4)

unfoldable pub u64_at : List ℕ → ℕ → ℕ
u64_at p i = from_le_bytes (slice p i 8)

-- "GPIOn is out of range (0-29)"
unfoldable pub out_of_range : ℕ → Text
out_of_range gpio =
    text "GPIO"
    ++ (decimal gpio ++ (text " is out of range (0-" ++ (decimal (gpio_count - 1) ++ text ")")))

-- The message of a payload whose length is wrong.
unfoldable pub wrong_length : Text → ℕ → ℕ → Text
wrong_length what want got =
    what ++ (text " payload must be " ++ (decimal want ++ (text " bytes, got " ++ decimal got)))
