-- ===== src/Board/World.antt =====
-- A bus with one simulated board (`FakeBus` of rust/src/testing.rs) as the host of the library,
-- and the clock of the host.
use hidpin.Base.{ℕ, List, [], ◌∷◌, if◌then◌else◌}
use hidpin.Base.Text.{Text, text, text_eq}
use hidpin.Error.{ErrorKind, not_found, Result, err, open_error}
use hidpin.Transport.{Host, DeviceEntry}
use hidpin.Board.{Board}
use hidpin.Board.Handle

pub record World : Type 0 where
  pub board : Board
  pub nanos : ℕ
  pub wall : ℕ
  pub process : ℕ

-- What the board's calls make of the world.
abbrev pub lift_pair : {A : Type 0} → World → A × Board → A × World
lift_pair w (r, b) = (r, record w { board = b })

abbrev pub lift_triple : {A B : Type 0} → World → A × B × Board → A × B × World
lift_triple w (r, buf, b) = (r, buf, record w { board = b })

-- `FakeBus::devices`: the board is on the bus while it is powered.
unfoldable pub devices : Board → List DeviceEntry
devices b =
    if b.powered
    then record {
      path = b.path;
      serial = b.serial;
      manufacturer = text "yukke.org";
      product = text "hidpin";
    }
      ∷ []
    else []

unfoldable pub no_such_device : (ErrorKind → Text) → DeviceEntry → Board → Result ℕ × Board
no_such_device kind_text entry b =
    (err (open_error entry.path (record { kind = not_found; shown = text "no such device" })), b)

-- `FakeBus::open`
unfoldable pub open_entry : (ErrorKind → Text) → DeviceEntry → Board → Result ℕ × Board
open_entry kind_text entry b =
    if b.powered
    then if text_eq b.path entry.path
      then Handle.open_board kind_text b
      else no_such_device kind_text entry b
    else no_such_device kind_text entry b

abbrev pub board_host : (ErrorKind → Text) → Host World ℕ
board_host kind_text = record {
  devices = λ w. (Result.ok (devices w.board), w);
  open_entry = λ entry w. lift_pair w (open_entry kind_text entry w.board);
  read = λ h buf timeout w. lift_triple w (Handle.read h buf timeout w.board);
  read_fits = λ h buf timeout w. Handle.read-FitsIn h buf timeout w.board;
  write = λ h report w. lift_pair w (Handle.write_report h report w.board);
  get_feature_report = λ h buf w. lift_triple w (Handle.get_feature_report h buf w.board);
  send_feature_report = λ h report w. lift_pair w (Handle.send_feature_report h report w.board);
  get_input_report = λ h buf w. lift_triple w (Handle.get_input_report h buf w.board);
  close = λ h w. record w { board = Handle.close h w.board };
  now = λ w. (w.nanos, w);
  wall_now = λ w. (w.wall, w);
  seed_source = λ w. ((w.wall, w.process), w);
}
