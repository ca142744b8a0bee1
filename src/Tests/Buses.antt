-- ===== src/Tests/Buses.antt =====
-- Two simulated boards on one bus (rust/src/testing.rs) at concrete values.
use hidpin.Base.{◌≡◌, refl, [], ◌∷◌, map}
use hidpin.Base.Text.{Text, text, text_eq, decimal}
use hidpin.Board.{new_board, plug, unplug}
use hidpin.Board.Access.{open_count}
use hidpin.Board.Bus.{
  Bus, board_at, put_board, plug_board, plug_all, unplug_board, devices, open_entry, open_first,
}
use hidpin.Board.Handle
use hidpin.Error.{ErrorKind, ok}
use hidpin.Transport.{DeviceEntry}

abbrev empty : Bus
empty = record {
  store = new_board (text "A") ∷ (new_board (text "B") ∷ []);
  boards = [];
  nodes = 0;
  nanos = 0;
  wall = 0;
  process = 0;
}

abbrev no_text : ErrorKind → Text
no_text kind = []

abbrev wanted : DeviceEntry
wanted = record { path = text "/dev/hidraw1"; serial = []; manufacturer = []; product = [] }

-- The nodes are numbered in the order of the calls, and a board that comes back gets a new one.
replugged :
    map
      (λ entry. entry.path)
      (devices (plug_board 0 (unplug_board 0 (plug_all (0 ∷ (1 ∷ [])) empty))))
    ≡ text "/dev/hidraw1" ∷ (text "/dev/hidraw2" ∷ [])
unfolding devices plug_board unplug_board plug_all board_at put_board plug unplug decimal text
    new_board
replugged = refl

opened : (open_entry no_text wanted (plug_all (0 ∷ (1 ∷ [])) empty)).0 ≡ ok (1, 0)
unfolding open_entry open_first plug_board plug_all board_at put_board plug decimal text_eq
    new_board text Handle.open_board
opened = refl

abbrev one_opened : Bus
one_opened = (open_entry no_text wanted (plug_all (0 ∷ (1 ∷ [])) empty)).1

-- The handle is on the second board only.
counted : (open_count (board_at 0 one_opened) ≡ 0) × (open_count (board_at 1 one_opened) ≡ 1)
unfolding open_entry open_first plug_board plug_all board_at put_board plug decimal text_eq
    new_board text Handle.open_board open_count
counted = (refl, refl)
