-- ===== src/Board/Pins.antt =====
-- What happens to the pins of the simulated board of rust/src/testing.rs: inputs, bus resets and
-- periodic reports.
use hidpin.Base.{
  ℕ, ◌+◌, ◌*◌, ◌%◌, ◌^◌, Bool, true, not, ◌||◌, List, [], ◌∷◌, ◌==◌, if◌then◌else◌, bit_and,
}
use hidpin.Base.Bytes.{wrapping_sub16}
use hidpin.Protocol.Flags
use hidpin.Protocol.Pins.{PinConfig, is_monitored, setting_at, outputs_mask, mask_to_gpios}
use hidpin.Board.{Board, fail_handles, replace_bit, send}

-- `reset_outputs`: the levels with each output at its initial level.
unfoldable pub reset_levels : PinConfig → List ℕ → ℕ → ℕ
reset_levels config [] levels = levels
reset_levels config (gpio ∷ gpios) levels =
    reset_levels config gpios
      (replace_bit levels (2 ^ gpio) (if (setting_at config gpio).param == 0 then 0 else 2 ^ gpio))

unfoldable pub reset_outputs : Board → Board
reset_outputs b = record b {
  levels = reset_levels b.config (mask_to_gpios (outputs_mask b.config)) b.levels;
}

-- `FakeBoard::suspend`
unfoldable pub suspend : Board → Board
suspend b =
    if outputs_mask b.config == 0
    then reset_outputs b
    else send Flags.output_reset [] (reset_outputs b)

-- `FakeBoard::reenumerate`
unfoldable pub reenumerate : Board → Board
reenumerate b = reset_outputs (fail_handles b)

-- `FakeBoard::set_input`
unfoldable pub set_input : ℕ → Bool → Board → Board
set_input gpio high b =
    let mask = 2 ^ gpio in
    let inputs = replace_bit b.inputs mask (if high then mask else 0) in
    let changed = record b { inputs = inputs } in
    let levels = replace_bit b.levels mask (bit_and inputs mask) in
    if not b.powered
      || (not (is_monitored (setting_at b.config gpio))
          || (bit_and b.levels mask == bit_and inputs mask))
    then changed
    else send Flags.level_changed
        (record { gpio = gpio; level = high; age_us = (setting_at b.config gpio).param * 1000 }
          ∷ [])
        (record changed { levels = levels })

-- `FakeBoard::lose_input`
unfoldable pub lose_input : ℕ → Bool → Board → Board
lose_input gpio high b =
    let mask = 2 ^ gpio in
    let inputs = replace_bit b.inputs mask (if high then mask else 0) in
    let changed = record b { inputs = inputs } in
    if is_monitored (setting_at b.config gpio)
    then record changed {
      levels = replace_bit b.levels mask (bit_and inputs mask);
      overflow = true;
    }
    else changed

-- `FakeBoard::periodic`
unfoldable pub periodic : Board → Board
periodic b = send Flags.periodic [] b

-- `FakeBoard::skip_reports`
unfoldable pub skip_reports : ℕ → Board → Board
skip_reports n b =
    let seq = (b.next_seq + n) % 2 ^ 16 in
    record b { next_seq = seq; last_seq = wrapping_sub16 seq 1 }
