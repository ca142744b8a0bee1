-- ===== src/Tests/Boards.antt =====
-- Devices on simulated boards (rust/src/device.rs, rust/src/testing.rs) at concrete values.
use hidpin.Base.{ℕ, ◌+◌, ◌≡◌, ◌≢◌, ◌≤◌, refl, true, none, some, [], ◌∷◌, ◌++◌, replicate, arith}
use hidpin.Base.Bits.{bit}
use hidpin.Base.Text.{Text, text, text_eq}
use hidpin.Error.{ErrorKind, ok, pin_config_rejected}
use hidpin.Protocol.Config.Accepted.{ConfigAllowed, Refuses}
use hidpin.Protocol.Config
use hidpin.Protocol.Config.{
  PinConfigReport, validate_pin_config, validate_pin_config_payload, check_settings, check_setting,
}
use hidpin.Protocol.Flags
use hidpin.Protocol.Pins.{
  PinConfig, pull_up_setting, output_setting, unused_setting, is_output, to_u8,
}
use hidpin.Protocol.ResultCode
use hidpin.Protocol.Status.{StatusReport}
use hidpin.Transport.{DeviceEntry, done, raised}
use hidpin.Device.{new_device, note_report, set_pin_config, write_outputs, set_outputs}
use hidpin.Device.Configure.{set_pin_config-Refuses, set_pin_config-done}
use hidpin.Device.Discovery.{choose_device, choose_device-first}
use hidpin.Device.Monad.{Device, Session}
use hidpin.Device.Reports.{note_report-gap}
use hidpin.Device.RequestIds.{next_request_id-fresh, first_request_id, xorshift, id_of}
use hidpin.Board.{Board, new_board, pico_info, empty_queue}
use hidpin.Board.Config.{write_config}
use hidpin.Board.EndToEnd.{set_pin_config-board}
use hidpin.Board.Driving.{write_outputs-board, set_outputs-board}
use hidpin.Board.Handle.{check}
use hidpin.Board.World.{World, board_host}
use hidpin.Board.Writing.{Written, write_config-Written}

abbrev one_output : PinConfig
one_output = pull_up_setting 20 ∷ (output_setting true ∷ replicate 28 unused_setting)

abbrev pico : Board
pico = record (new_board (text "E66138")) {
  powered = true;
  handles = 0 ∷ [];
  queues = empty_queue ∷ [];
}

abbrev world : World
world = record { board = pico; nanos = 5_000_000_000; wall = 1_700_000_000; process = 4321 }

-- A device on the first handle of the board, its information read.
abbrev session : Session World ℕ
session = record {
  device = record (new_device 0 (text "E66138") 12345) { info = some pico_info };
  env = world;
}

abbrev no_text : ErrorKind → Text
no_text kind = []

accepted : (validate_pin_config one_output pico_info.available).0 ≡ ResultCode.ok
unfolding validate_pin_config validate_pin_config_payload Config.encode Config.encode_head
    check_settings check_setting to_u8 bit
accepted = refl

opened : check 0 pico ≡ none
unfolding check new_board
opened = refl

written_board :
    (read : PinConfigReport) × (after : Session World ℕ) × (set_pin_config
        (board_host no_text)
        1
        one_output
        session
      ≡ (done read, after))
    × (read.config ≡ one_output)
    × (after.device.config ≡ some one_output)
    × (after.env.board.config ≡ one_output)
unfolding new_device new_board
written_board =
    set_pin_config-board no_text 1 one_output session opened refl refl refl accepted
      (first_request_id 0 12345)

set_pin_config-board_example :
    (read : PinConfigReport) × (after : Session World ℕ) × (set_pin_config
        (board_host no_text)
        1
        one_output
        session
      ≡ (done read, after))
    × (read.config ≡ one_output)
    × (after.device.config ≡ some one_output)
    × (after.env.board.config ≡ one_output)
unfolding new_device new_board
set_pin_config-board_example =
    set_pin_config-board no_text 1 one_output session opened refl refl refl accepted
      (first_request_id 0 12345)

set_pin_config-done_example :
    (written_board.0.result ≡ ResultCode.ok)
    × (written_board.0.config ≡ one_output)
    × (written_board.1.device.config ≡ some one_output)
set_pin_config-done_example =
    set_pin_config-done (board_host no_text) 1 one_output session written_board.1 written_board.0
      written_board.2

-- GPIO25 is not available on the board.
abbrev wrong_pin : PinConfig
wrong_pin = replicate 25 unused_setting ++ (pull_up_setting 20 ∷ replicate 4 unused_setting)

broken : ¬ ConfigAllowed pico_info.available wrong_pin
unfolding to_u8 bit
broken all =
    let there : bit pico_info.available 25 ≡ true =
      (all 25 (omega arith)).gpio_available (λ h. omega arith) in
    cc

set_pin_config-Refuses_example :
    (result : ℕ) × (gpio : ℕ) × (set_pin_config (board_host no_text) 1 wrong_pin session
      ≡ (raised (pin_config_rejected result gpio true), session))
    × Refuses wrong_pin pico_info.available (result, gpio)
unfolding new_device
set_pin_config-Refuses_example =
    set_pin_config-Refuses (board_host no_text) 1 wrong_pin session refl refl broken

write_config-Written_example :
    Written
      (record { result = 0; result_gpio = 255; request_id = 9; config = wrong_pin })
      pico
      (write_config
        (Config.encode
          (record { result = 0; result_gpio = 255; request_id = 9; config = wrong_pin }))
        pico)
write_config-Written_example =
    write_config-Written
      (record { result = 0; result_gpio = 255; request_id = 9; config = wrong_pin }) pico refl

next_request_id-fresh_example :
    (1 ≤ id_of (xorshift 12345)) × (id_of (xorshift 12345) ≤ 255) × (id_of (xorshift 12345) ≢ 0)
next_request_id-fresh_example = next_request_id-fresh 1 12345 0 (first_request_id 0 12345)

abbrev after_gap : StatusReport
after_gap = record {
  seq = 2;
  reason = 1;
  flags = 0;
  monitored = 0;
  outputs = 0;
  levels = 0;
  timestamp_us = 0;
  events = [];
}

abbrev late_device : Device ℕ
late_device = record {
  transport = 0;
  serial = [];
  info = none;
  config = none;
  polarity = [];
  seed = 1;
  last_request_id = 0;
  last_seq = some 65533;
  missed = 10;
}

note_report-gap_example :
    ((note_report after_gap late_device).missed ≡ 10 + 4)
    × ((note_report after_gap late_device).last_seq ≡ some 2)
unfolding Flags.contains
note_report-gap_example =
    note_report-gap after_gap late_device 65533 4 refl refl (omega arith) (omega arith) refl

abbrev entry : Text → DeviceEntry
entry serial = record {
  path = text "/dev/hidraw0";
  serial = serial;
  manufacturer = [];
  product = [];
}

choose_device-first_example :
    choose_device (entry (65 ∷ []) ∷ (entry (66 ∷ []) ∷ [])) (some (66 ∷ [])) ≡ ok (entry (66 ∷ []))
unfolding text_eq
choose_device-first_example =
    choose_device-first (entry (65 ∷ []) ∷ []) [] (entry (66 ∷ [])) (refl, tt)

-- The board with GPIO1 an output.
abbrev driving : Session World ℕ
driving = record {
  device = new_device 0 (text "E66138") 12345;
  env = record world { board = record pico { config = one_output } };
}

write_outputs-board_example :
    (after : Session World ℕ) × (write_outputs (board_host no_text) 6 2 driving ≡ (done tt, after))
    × (bit after.env.board.levels 1 ≡ true)
unfolding new_device new_board check is_output bit
write_outputs-board_example =
    write_outputs-board no_text 6 2 1 driving refl (omega arith) (omega arith) (omega arith)

-- GPIO 1 is an output, GPIO 2 is not.
set_outputs-board_example :
    (after : Session World ℕ) × (set_outputs
        (board_host no_text)
        ((1, true) ∷ ((2, true) ∷ []))
        driving
      ≡ (done tt, after))
    × (bit after.env.board.levels 1 ≡ true)
unfolding new_device new_board check is_output bit
set_outputs-board_example =
    set_outputs-board no_text ((1, true) ∷ ((2, true) ∷ [])) 1 driving refl refl (omega arith)
