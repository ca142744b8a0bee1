-- ===== src/Board.antt =====
-- The simulated board of rust/src/testing.rs: `FakeBoard`, its status reports and its pin
-- configuration. A handle is the number of its report queue; a lock is held for a whole call, so
-- a call is one step.
pub mod Config
pub mod Pins
pub mod Handle
pub mod World
pub mod Bus
pub mod Access
pub mod Answers
pub mod EndToEnd
pub mod Writing
pub mod Driving
use hidpin.Base.{
  ℕ, zero, suc, ◌+◌, ◌-◌, ◌*◌, ◌%◌, ◌^◌, Bool, true, false, not, ◌&&◌, ◌||◌, Option, none, some,
  List, [], ◌∷◌, ◌++◌, map, ltb, leb, ◌==◌, if◌then◌else◌, length, set, get_or, replicate, bit_or,
  bit_and,
}
use hidpin.Base.Bits.{bit, complement32}
use hidpin.Base.Bytes.{wrapping_sub16}
use hidpin.Base.Text.{Text, text}
use hidpin.Error.{Result, ok, err, ErrorKind, ◌>>=◌}
use hidpin.Protocol.Config.{
  PinConfigReport, decode_pin_config, encode_pin_config_set, validate_pin_config_payload,
}
use hidpin.Protocol.Flags
use hidpin.Protocol.Info.{DeviceInfo, board_pico}
use hidpin.Protocol.Layout.{report_id_status, gpio_count, events_per_report}
use hidpin.Protocol.Pins.{
  PinConfig, PinSetting, is_monitored, is_output, mode_eq, setting_eq, config_eq, setting_at,
  monitored_mask, outputs_mask, mask_to_gpios, default_for,
}
use hidpin.Protocol.ResultCode
use hidpin.Protocol.ResultCode.{result_gpio_none}
use hidpin.Protocol.Status.{EdgeEvent, StatusReport}
use hidpin.Protocol.Status
use hidpin.Protocol.Version.{protocol_version}

-- GPIO0-22 and 26-28 of the Raspberry Pi Pico.
abbrev pub pico_available : ℕ
pico_available = 0x1c7f_ffff

-- Reports a handle keeps for the host; later ones are dropped.
abbrev pub queue_len : ℕ
queue_len = 64

pub record HandleQueue : Type 0 where
  pub reports : List (List ℕ)
  pub closed : Bool
  pub failed : Bool

abbrev pub empty_queue : HandleQueue
empty_queue = record { reports = []; closed = false; failed = false }

-- `BoardState` with the serial number of its `BoardShared`. `handles` are the open handles, and
-- `queues` the queues of all handles that were ever opened.
pub record Board : Type 0 where
  pub serial : Text
  pub path : Text
  pub powered : Bool
  pub fails_to_open : Option ErrorKind
  pub info : DeviceInfo
  pub config : PinConfig
  pub result : ℕ
  pub result_gpio : ℕ
  pub request_id : ℕ
  pub inputs : ℕ
  pub levels : ℕ
  pub next_seq : ℕ
  pub last_seq : ℕ
  pub clock_us : ℕ
  pub overflow : Bool
  pub handles : List ℕ
  pub queues : List HandleQueue

abbrev pub pico_info : DeviceInfo
pico_info = record {
  protocol_version = protocol_version;
  firmware_major = 0;
  firmware_minor = 1;
  firmware_patch = 0;
  board = board_pico;
  gpio_total = gpio_count;
  periodic_interval_ms = 1000;
  available = pico_available;
  events_limit = events_per_report;
  event_queue_size = 32;
  chip = 0;
  chip_revision = 0;
  quirks = 0;
  sdk_board = [];
}

-- `FakeBoard::new`
unfoldable pub new_board : Text → Board
new_board serial = record {
  serial = serial;
  path = [];
  powered = false;
  fails_to_open = none;
  info = pico_info;
  config = default_for pico_available;
  result = ResultCode.ok;
  result_gpio = result_gpio_none;
  request_id = 0;
  inputs = pico_available;
  levels = 0;
  next_seq = 0;
  last_seq = 0;
  clock_us = 0;
  overflow = false;
  handles = [];
  queues = [];
}

-- `FakeBoard::plug`: a board that was not powered starts afresh.
unfoldable pub plug : Text → Board → Board
plug path b = if b.powered then record b { path = path } else record b {
  path = path;
  powered = true;
  config = default_for b.info.available;
  result = ResultCode.ok;
  result_gpio = result_gpio_none;
  request_id = 0;
  levels = bit_and b.inputs (monitored_mask (default_for b.info.available));
  next_seq = 0;
  last_seq = 0;
  clock_us = 5_000_000;
  overflow = false;
}

abbrev pub queue_at : List HandleQueue → ℕ → HandleQueue
queue_at queues h = get_or queues h empty_queue

-- `fail_handles`
unfoldable pub fail_queues : List ℕ → List HandleQueue → List HandleQueue
fail_queues [] queues = queues
fail_queues (h ∷ hs) queues =
    fail_queues hs (set queues h (record (queue_at queues h) { failed = true }))

unfoldable pub fail_handles : Board → Board
fail_handles b = record b { handles = []; queues = fail_queues b.handles b.queues }

-- `FakeBoard::unplug`
unfoldable pub unplug : Board → Board
unplug b = record (fail_handles b) { powered = false; path = [] }

-- `levels & !bit | new`
unfoldable pub replace_bit : ℕ → ℕ → ℕ → ℕ
replace_bit levels mask new = bit_or (bit_and levels (complement32 mask)) new

-- `status`
unfoldable pub status : Board → ℕ → List EdgeEvent → ℕ → ℕ → StatusReport
status b reason events seq flags = record {
  seq = seq;
  reason = reason;
  flags = flags;
  monitored = monitored_mask b.config;
  outputs = outputs_mask b.config;
  levels = b.levels;
  timestamp_us = b.clock_us;
  events = events;
}

-- Queues the report at each open handle that has room for it.
unfoldable pub push_report : List ℕ → List ℕ → List HandleQueue → List HandleQueue
push_report report [] queues = queues
push_report report (h ∷ hs) queues = push_report report hs (
    let q = queue_at queues h in
    if ltb (length q.reports) queue_len
    then set queues h (record q { reports = q.reports ++ (report ∷ []) })
    else queues)

-- The data of a report; `encode` fails only with more than seven events, and `send` is called with
-- at most one.
abbrev pub report_data : Result (List ℕ) → List ℕ
report_data (ok p) = report_id_status ∷ p
report_data (err e) = []

-- `send`
unfoldable pub send : ℕ → List EdgeEvent → Board → Board
send reason events b =
    let flags = if b.overflow then Flags.overflow else 0 in
    let ticked = record b { clock_us = b.clock_us + 1000; overflow = false } in
    let report = status ticked reason events b.next_seq flags in
    record ticked {
      last_seq = b.next_seq;
      next_seq = (b.next_seq + 1) % 2 ^ 16;
      queues = push_report (report_data (Status.encode report)) b.handles b.queues;
    }
