-- ===== src/Tests/Watching.antt =====
-- The watcher of rust/src/watch.rs at concrete states.
use hidpin.Base.{
  ℕ, ◌≡◌, ◌≤◌, refl, true, false, none, some, [], ◌∷◌, ◌++◌, elem, Ascending, replicate, arith,
}
use hidpin.Base.Bits.{bit}
use hidpin.Base.Maps.{lookup}
use hidpin.Base.Text.{Text}
use hidpin.Board.World.{World, board_host}
use hidpin.Error.{ErrorKind, err, unsupported_platform, pin_config_rejected}
use hidpin.Error.Display.{display}
use hidpin.Board.{pico_info, new_board}
use hidpin.Protocol.Config.Accepted.{ConfigAllowed, Refuses}
use hidpin.Protocol.Pins.{
  PinConfig, pull_up_setting, output_setting, unused_setting, unused_config, setting_eq, is_output,
  to_u8,
}
use hidpin.Protocol.Status
use hidpin.Protocol.Status.{StatusReport}
use hidpin.Watch.Clock.{DeviceClock, add, instant_at}
use hidpin.Watch.Clock.Estimate.{instant_at-add}
use hidpin.Protocol.Flags
use hidpin.Watch.Connect.{reset_failures}
use hidpin.Watch.Connect.Retarget.{set_target}
use hidpin.Watch.Connect.Report.{is_stale, next_snapshot}
use hidpin.Watch.Connect.Stale.{is_stale-window}
use hidpin.Watch.Connect.Failures.{failed_times, failed_times-counts}
use hidpin.Watch.Connect.Target.{set_target-Refuses}
use hidpin.Watch.Events.{driven_outputs, connect_failed}
use hidpin.Watch.Events.Driven.{elem-driven_outputs}
use hidpin.Watch.Levels.{absorb_levels}
use hidpin.Watch.Levels.Known.{lookup-absorb_levels}
use hidpin.Watch.Loop.{WatchLoop, going}

abbrev watcher : WatchLoop ℕ ℕ
watcher = record {
  serial = none;
  target = none;
  active_low = (3, false) ∷ [];
  interval = 1_000_000_000;
  pending = [];
  info = some pico_info;
  config = unused_config;
  known = (7, true) ∷ [];
  ever_connected = true;
  conn = none;
  failure = [];
  failures = 5;
  restore_count = 0;
  last_restore = none;
  scan_at = none;
  restore_at = none;
  settle_at = none;
  env = 0;
}

abbrev high_pin : StatusReport
high_pin = record {
  seq = 1;
  reason = 1;
  flags = 0;
  monitored = 8;
  outputs = 0;
  levels = 8;
  timestamp_us = 100;
  events = [];
}

lookup-absorb_levels_example : lookup 3 (absorb_levels high_pin watcher).known ≡ some true
unfolding Status.is_monitored bit lookup
lookup-absorb_levels_example = lookup-absorb_levels high_pin watcher 3 (omega arith)

failed_times-counts_example :
    let v = failed_times 3 unsupported_platform (reset_failures watcher) in
    (v.failures ≡ 3)
    × (v.failure ≡ display unsupported_platform)
    × (v.pending ≡ connect_failed unsupported_platform ∷ [])
failed_times-counts_example = failed_times-counts 2 unsupported_platform watcher (omega arith)

abbrev one_output : PinConfig
one_output = pull_up_setting 20 ∷ (output_setting true ∷ replicate 28 unused_setting)

abbrev no_output : PinConfig
no_output = replicate 30 unused_setting

elem-driven_outputs_example :
    Ascending 0 (driven_outputs no_output one_output)
    × (elem 1 (driven_outputs no_output one_output) ≡ true)
unfolding is_output setting_eq
elem-driven_outputs_example = elem-driven_outputs no_output one_output 1

abbrev clock : DeviceClock
clock = record {
  cur = some (9_000_000_000, 4_000_000);
  prev = none;
  cur_start = some 9_000_000_000;
}

instant_at-add_example :
    (at : ℕ) × (instant_at (add 10_002_000_000 5_000_000 clock) 5_000_000 ≡ some at)
    × (at ≤ 10_002_000_000)
instant_at-add_example =
    instant_at-add clock 10_002_000_000 5_000_000 (omega arith) (omega arith) tt

-- GPIO25 is not available on the board.
abbrev wrong_pin : PinConfig
wrong_pin = replicate 25 unused_setting ++ (pull_up_setting 20 ∷ replicate 4 unused_setting)

broken : ¬ ConfigAllowed pico_info.available wrong_pin
unfolding to_u8 bit
broken all =
    let there : bit pico_info.available 25 ≡ true =
      (all 25 (omega arith)).gpio_available (λ h. omega arith) in
    cc

abbrev no_text : ErrorKind → Text
no_text kind = []

abbrev on_board : World → WatchLoop World ℕ
on_board world = record {
  serial = none;
  target = some one_output;
  active_low = [];
  interval = 1_000_000_000;
  pending = [];
  info = some pico_info;
  config = one_output;
  known = [];
  ever_connected = true;
  conn = none;
  failure = [];
  failures = 0;
  restore_count = 0;
  last_restore = none;
  scan_at = none;
  restore_at = none;
  settle_at = none;
  env = world;
}

abbrev world : World
world = record { board = new_board []; nanos = 5_000_000_000; wall = 1_700_000_000; process = 4321 }

set_target-Refuses_example :
    (result : ℕ) × (gpio : ℕ) × (set_target (board_host no_text) 2 wrong_pin (on_board world)
      ≡ (going (err (pin_config_rejected result gpio true)), on_board world))
    × Refuses wrong_pin pico_info.available (result, gpio)
set_target-Refuses_example =
    set_target-Refuses (board_host no_text) 2 wrong_pin (on_board world) refl refl broken

abbrev wrapped : StatusReport
wrapped = record {
  seq = 2;
  reason = 1;
  flags = 0;
  monitored = 0;
  outputs = 0;
  levels = 0;
  timestamp_us = 0;
  events = [];
}

is_stale-window_example :
    (is_stale wrapped (some 65535) ≡ false) × (next_snapshot wrapped (some 65535) ≡ none)
unfolding Flags.contains
is_stale-window_example = is_stale-window wrapped 65535 3 refl (omega arith) (omega arith) refl
