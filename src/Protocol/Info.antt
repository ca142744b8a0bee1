-- ===== src/Protocol/Info.antt =====
-- The device information of rust/src/protocol.rs, report ID 2.
pub mod RoundTrip
use hidpin.Base.{
  ℕ, zero, suc, ◌+◌, ◌≤◌, Bool, true, false, not, ◌&&◌, List, [], ◌∷◌, ◌++◌, ltb, ◌==◌,
  if◌then◌else◌, length, set, take, replicate, min,
}
use hidpin.Base.Bytes.{byte_at, slice, write, to_le_bytes}
use hidpin.Base.Text.{Text, text, decimal}
use hidpin.Error.{Result, ok, err, malformed}
use hidpin.Protocol.Flags
use hidpin.Protocol.Layout.{
  report_payload_len, sdk_board_len, sdk_board_offset, u16_at, u32_at, wrong_length,
}
use hidpin.Protocol.Pins.{mask_to_gpios}

-- `Board`, a byte.
abbrev pub board_other : ℕ
board_other = 0

abbrev pub board_pico : ℕ
board_pico = 1

abbrev pub board_qtpy_rp2040 : ℕ
board_qtpy_rp2040 = 2

abbrev pub board_pico2 : ℕ
board_pico2 = 3

is_empty : Text → Bool
is_empty [] = true
is_empty (b ∷ bs) = false

-- The product name of a board with a preset, otherwise its Pico SDK name when reported.
unfoldable pub board_name : ℕ → Text → Text
unfolding is_empty
board_name board sdk_board =
    if board == board_pico
    then text "Raspberry Pi Pico"
    else if board == board_qtpy_rp2040
    then text "Adafruit QT Py RP2040"
    else if board == board_pico2
    then text "Raspberry Pi Pico 2"
    else if not (is_empty sdk_board)
    then sdk_board
    else if board == board_other
    then text "other board"
    else text "unknown board " ++ decimal board

abbrev pub chip_rp2040 : ℕ
chip_rp2040 = 1

abbrev pub chip_rp2350a : ℕ
chip_rp2350a = 2

-- `Chip::name`
unfoldable pub chip_name : ℕ → Text
chip_name chip =
    if chip == 0
    then text "not reported"
    else if chip == chip_rp2040
    then text "RP2040"
    else if chip == chip_rp2350a
    then text "RP2350A"
    else text "unknown chip " ++ decimal chip

pub record DeviceInfo : Type 0 where
  pub protocol_version : ℕ
  pub firmware_major : ℕ
  pub firmware_minor : ℕ
  pub firmware_patch : ℕ
  pub board : ℕ
  pub gpio_total : ℕ
  pub periodic_interval_ms : ℕ
  pub available : ℕ
  pub events_limit : ℕ
  pub event_queue_size : ℕ
  pub chip : ℕ
  pub chip_revision : ℕ
  pub quirks : ℕ
  pub sdk_board : Text

-- "major.minor.patch"
unfoldable pub firmware_version : DeviceInfo → Text
firmware_version i =
    decimal i.firmware_major
    ++ (text "." ++ (decimal i.firmware_minor ++ (text "." ++ decimal i.firmware_patch)))

unfoldable pub available_gpios : DeviceInfo → List ℕ
unfolding mask_to_gpios
available_gpios i = mask_to_gpios i.available

-- The internal pull-downs cannot hold an input low.
unfoldable pub pull_down_unreliable : DeviceInfo → Bool
pull_down_unreliable i = Flags.contains i.quirks Flags.pull_down_unreliable

-- The bytes before the board's name, and the rest still zero.
unfoldable pub encode_head : DeviceInfo → List ℕ
encode_head i =
    let p0 = set (replicate report_payload_len 0) 0 i.protocol_version in
    let firmware = i.firmware_major ∷ i.firmware_minor ∷ i.firmware_patch ∷ [] in
    let p1 = set (write p0 1 firmware) 4 i.board in
    let p2 = write (set p1 5 i.gpio_total) 6 (to_le_bytes 2 i.periodic_interval_ms) in
    let p3 = write p2 8 (to_le_bytes 4 i.available) in
    let p4 = set (set p3 12 i.events_limit) 13 i.event_queue_size in
    set (set (set p4 14 i.chip) 15 i.chip_revision) 16 i.quirks

-- `DeviceInfo::encode`; a name longer than 40 bytes is cut.
unfoldable pub encode : DeviceInfo → List ℕ
encode i =
    write (encode_head i) sdk_board_offset
      (take (min (length i.sdk_board) sdk_board_len) i.sdk_board)

-- The bytes before the first 0 byte.
unfoldable pub until_zero : List ℕ → List ℕ
until_zero [] = []
until_zero (b ∷ bs) = let rest = until_zero bs in if b == 0 then [] else b ∷ rest

-- Each byte as a character: an ASCII byte is itself, any other is U+FFFD.
unfoldable pub to_ascii : List ℕ → Text
to_ascii [] = []
to_ascii (b ∷ bs) = (if ltb b 128 then b ∷ [] else 0xef ∷ 0xbf ∷ 0xbd ∷ []) ++ to_ascii bs

unfoldable pub decode_device_info : List ℕ → Result DeviceInfo
decode_device_info p =
    if not (length p == report_payload_len)
    then err (malformed (wrong_length (text "device info") report_payload_len (length p)))
    else ok (record {
      protocol_version = byte_at p 0;
      firmware_major = byte_at p 1;
      firmware_minor = byte_at p 2;
      firmware_patch = byte_at p 3;
      board = byte_at p 4;
      gpio_total = byte_at p 5;
      periodic_interval_ms = u16_at p 6;
      available = u32_at p 8;
      events_limit = byte_at p 12;
      event_queue_size = byte_at p 13;
      chip = byte_at p 14;
      chip_revision = byte_at p 15;
      quirks = byte_at p 16;
      sdk_board = to_ascii (until_zero (slice p sdk_board_offset sdk_board_len));
    })
