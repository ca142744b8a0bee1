-- ===== src/Board/Bus.antt =====
-- `FakeBus` of rust/src/testing.rs with any number of boards, as a host of the library. A board is
-- its place in a store, which the bus and the tests share; a handle is the place of its board with
-- its number there.
use hidpin.Base.{ℕ, ◌+◌, ◌==◌, not, List, [], ◌∷◌, ◌++◌, map, filter, get_or, set, if◌then◌else◌}
use hidpin.Base.Text.{Text, text, text_eq, decimal}
use hidpin.Board.{Board, new_board, plug, unplug}
use hidpin.Board.Handle
use hidpin.Error.{ErrorKind, not_found, Result, ok, err, open_error}
use hidpin.Transport.{Host, DeviceEntry}

-- `BusState` with the boards that there are and the clocks; `boards` are the places of those that
-- are plugged in.
pub record Bus : Type 0 where
  pub store : List Board
  pub boards : List ℕ
  pub nodes : ℕ
  pub nanos : ℕ
  pub wall : ℕ
  pub process : ℕ

unfoldable pub board_at : ℕ → Bus → Board
board_at k bus = get_or bus.store k (new_board [])

unfoldable pub put_board : ℕ → Board → Bus → Bus
put_board k b bus = record bus { store = set bus.store k b }

-- `FakeBus::plug`
unfoldable pub plug_board : ℕ → Bus → Bus
plug_board k bus =
    let plugged = plug (text "/dev/hidraw" ++ decimal bus.nodes) (board_at k bus) in
    let bus' = put_board k plugged bus in
    record bus' { nodes = bus.nodes + 1; boards = bus.boards ++ (k ∷ []) }

-- `FakeBus::new`
unfoldable pub plug_all : List ℕ → Bus → Bus
plug_all [] bus = bus
plug_all (k ∷ ks) bus = plug_all ks (plug_board k bus)

-- `FakeBus::unplug`
unfoldable pub unplug_board : ℕ → Bus → Bus
unplug_board k bus =
    let bus' = record bus { boards = filter (λ j. not (j == k)) bus.boards } in
    put_board k (unplug (board_at k bus')) bus'

-- `FakeBus::devices`
unfoldable pub devices : Bus → List DeviceEntry
devices bus =
    map
      (λ k. record {
        path = (board_at k bus).path;
        serial = (board_at k bus).serial;
        manufacturer = text "yukke.org";
        product = text "hidpin";
      })
      bus.boards

-- What a call of the board at a place makes of the bus.
abbrev pub lift_pair : {A : Type 0} → ℕ → Bus → A × Board → A × Bus
lift_pair k bus (r, b) = (r, put_board k b bus)

abbrev pub lift_triple : {A B : Type 0} → ℕ → Bus → A × B × Board → A × B × Bus
lift_triple k bus (r, buf, b) = (r, buf, put_board k b bus)

abbrev pub handle_of : ℕ → Result ℕ → Result (ℕ × ℕ)
handle_of k (ok h) = ok (k, h)
handle_of k (err e) = err e

-- The first board with the path is opened.
unfoldable pub open_first : (ErrorKind → Text) → DeviceEntry → List ℕ → Bus → Result (ℕ × ℕ) × Bus
open_first kind_text entry [] bus =
    (err (open_error entry.path (record { kind = not_found; shown = text "no such device" })), bus)
open_first kind_text entry (k ∷ ks) bus =
    let (r, b) = Handle.open_board kind_text (board_at k bus) in
    let rest = open_first kind_text entry ks bus in
    if text_eq (board_at k bus).path entry.path then (handle_of k r, put_board k b bus) else rest

-- `FakeBus::open`
unfoldable pub open_entry : (ErrorKind → Text) → DeviceEntry → Bus → Result (ℕ × ℕ) × Bus
open_entry kind_text entry bus = open_first kind_text entry bus.boards bus

abbrev pub bus_host : (ErrorKind → Text) → Host Bus (ℕ × ℕ)
bus_host kind_text = record {
  devices = λ bus. (ok (devices bus), bus);
  open_entry = λ entry bus. open_entry kind_text entry bus;
  read = λ (k, h) buf timeout bus. lift_triple k bus (Handle.read h buf timeout (board_at k bus));
  read_fits = λ (k, h) buf timeout bus. Handle.read-FitsIn h buf timeout (board_at k bus);
  write = λ (k, h) report bus. lift_pair k bus (Handle.write_report h report (board_at k bus));
  get_feature_report =
      λ (k, h) buf bus. lift_triple k bus (Handle.get_feature_report h buf (board_at k bus));
  send_feature_report =
      λ (k, h) report bus. lift_pair k bus (Handle.send_feature_report h report (board_at k bus));
  get_input_report =
      λ (k, h) buf bus. lift_triple k bus (Handle.get_input_report h buf (board_at k bus));
  close = λ (k, h) bus. put_board k (Handle.close h (board_at k bus)) bus;
  now = λ bus. (bus.nanos, bus);
  wall_now = λ bus. (bus.wall, bus);
  seed_source = λ bus. ((bus.wall, bus.process), bus);
}
