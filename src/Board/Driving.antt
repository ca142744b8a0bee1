-- ===== src/Board/Driving.antt =====
-- Output commands (rust/src/device.rs `write_outputs`) on an open handle of the simulated board of
-- rust/src/testing.rs.
use hidpin.Base.{
  true, List, ℕ, ◌^◌, ◌<◌, ◌≡◌, refl, ap, ◌∙◌, Bool, not, ◌&&◌, ◌||◌, if◌then◌else◌, none, [], ◌∷◌,
  length, bit_and, bit_or, arith,
}
use hidpin.Base.Bits.{bit, bit-bit_and, bit-bit_or, bit-complement32, bit_and_lt, complement32}
use hidpin.Base.Text.{Text}
use hidpin.Error.{ErrorKind}
use hidpin.Protocol.Flags
use hidpin.Protocol.Layout.{report_id_output}
use hidpin.Protocol.Output.{encode_output, decode-encode_output}
use hidpin.Protocol.Pins.{is_output, setting_at, outputs_mask}
use hidpin.Protocol.Pins.Masks.{bit-outputs_mask}
use hidpin.Transport.{done, returned}
use hidpin.Device.{set_outputs, write_outputs, transport_write}
use hidpin.Device.Monad.{Session, ◌>>=◌}
use hidpin.Device.Reports.{listed, listed_high, gpios_in_range, output_words-sends}
use hidpin.Board.{Board, send}
use hidpin.Board.Handle.{check, write_report, apply_output}
use hidpin.Board.World.{World, board_host}

-- The levels after the outputs in `mask` were driven to `value`.
abbrev driven_levels : ℕ → ℕ → Board → ℕ
driven_levels mask value b =
    let driven = bit_and mask (outputs_mask b.config) in
    bit_or (bit_and b.levels (complement32 driven)) (bit_and value driven)

abbrev driven_board : ℕ → ℕ → Board → Board
driven_board mask value b =
    send Flags.output_applied [] (record b { levels = driven_levels mask value b })

bit-driven_levels :
    (mask value : ℕ) (b : Board) (g : ℕ)
    → mask < 2 ^ 32
    → g < 32
    → bit (driven_levels mask value b) g
      ≡ (if bit mask g && is_output (setting_at b.config g) then bit value g else bit b.levels g)
bit-driven_levels mask value b g h k =
    let driven = bit_and mask (outputs_mask b.config) in
    rw
      (
        bit-bit_or (bit_and b.levels (complement32 driven)) (bit_and value driven) g,
        bit-bit_and b.levels (complement32 driven) g,
        bit-bit_and value driven g,
        bit-complement32 driven g (bit_and_lt 32 mask (outputs_mask b.config) h) k,
        bit-bit_and mask (outputs_mask b.config) g,
        bit-outputs_mask b.config g,
      )
      (choose (bit b.levels g) (bit value g) (bit mask g && is_output (setting_at b.config g)))
  where
    choose : (old new on : Bool) → (old && not on || new && on) ≡ (if on then new else old)
    choose old new on = ground arith

write_report-driven :
    (h mask value : ℕ) (b : Board)
    → check h b ≡ none
    → mask < 2 ^ 32
    → value < 2 ^ 32
    → write_report h (report_id_output ∷ encode_output mask value) b
      ≡ (returned (length (report_id_output ∷ encode_output mask value)), driven_board mask value b)
unfolding write_report apply_output
write_report-driven h mask value b open_handle p q =
    rw (open_handle, decode-encode_output mask value p q)

send-levels : (reason : ℕ) (b : Board) → (send reason [] b).levels ≡ b.levels
unfolding send
send-levels reason b = refl

-- On an open handle of the simulated board, `write_outputs` of a 32-bit mask and value returns; an
-- output in the mask then has the level of the value, and every other pin below 32 keeps its level.
pub write_outputs-board :
    (kind_text : ErrorKind → Text) (mask value g : ℕ) (s : Session World ℕ)
    → check s.device.transport s.env.board ≡ none
    → mask < 2 ^ 32
    → value < 2 ^ 32
    → g < 32
    → (after : Session World ℕ) × (write_outputs (board_host kind_text) mask value s
        ≡ (done tt, after))
      × (bit after.env.board.levels g ≡ (
          if bit mask g && is_output (setting_at s.env.board.config g)
          then bit value g
          else bit s.env.board.levels g))
unfolding ◌>>=◌ write_outputs transport_write
write_outputs-board kind_text mask value g s open_handle p q k = (
  record s { env = record s.env { board = driven_board mask value s.env.board } },
  rw (write_report-driven s.device.transport mask value s.env.board open_handle p q),
  ap (λ l. bit l g) (send-levels Flags.output_applied _)
      ∙ bit-driven_levels mask value s.env.board g p k,
)

-- On an open handle of the simulated board, `set_outputs` of levels with GPIOs below 30 returns; an
-- output that is listed then is HIGH if it is listed as HIGH at least once, and else LOW, and every
-- other pin below 32 keeps its level.
pub set_outputs-board :
    (kind_text : ErrorKind → Text) (levels : List (ℕ × Bool)) (g : ℕ) (s : Session World ℕ)
    → check s.device.transport s.env.board ≡ none
    → gpios_in_range levels ≡ true
    → g < 32
    → (after : Session World ℕ) × (set_outputs (board_host kind_text) levels s ≡ (done tt, after))
      × (bit after.env.board.levels g ≡ (
          if listed g levels && is_output (setting_at s.env.board.config g)
          then listed_high g levels
          else bit s.env.board.levels g))
unfolding set_outputs ◌>>=◌
set_outputs-board kind_text levels g s open_handle small k =
    let (mask, value, e, p, q, in_mask, in_value) = output_words-sends levels g small in
    let (after, returns, level) = write_outputs-board kind_text mask value g s open_handle p q k in
    (after, rw e returns, level ∙ rw (in_mask, in_value))
