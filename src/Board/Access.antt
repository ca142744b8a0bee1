-- ===== src/Board/Access.antt =====
-- What tests ask of a simulated board of rust/src/testing.rs, and change on it.
use hidpin.Base.{ℕ, Bool, true, false, Option, List, length}
use hidpin.Base.Bits.{bit}
use hidpin.Board.{Board}
use hidpin.Board.Config.{write_config}
use hidpin.Error.{Error, ErrorKind, not_connected, io_error, Result, ok, err}
use hidpin.Protocol.Config.{encode_pin_config_set}
use hidpin.Protocol.Pins.{PinConfig}

unfoldable pub is_not_connected : ErrorKind → Bool
is_not_connected not_connected = true
is_not_connected kind = false

unfoldable pub is_gone : Error → Bool
is_gone (io_error source) = is_not_connected source.kind
is_gone e = false

unfoldable pub set_open_error : Option ErrorKind → Board → Board
set_open_error kind b = record b { fails_to_open = kind }

unfoldable pub set_protocol_version : ℕ → Board → Board
set_protocol_version version b = record b { info = record b.info { protocol_version = version } }

-- A payload that is there, as the request_id 1 is valid.
unfoldable pub written : Result (List ℕ) → Board → ℕ × Board
written (ok payload) b = let b' = write_config payload b in (b'.result, b')
written (err e) b = (b.result, b)

-- `write_pin_config`
unfoldable pub write_pin_config : PinConfig → Board → ℕ × Board
write_pin_config config b = written (encode_pin_config_set config 1) b

unfoldable pub level : ℕ → Board → Bool
level gpio b = bit b.levels gpio

unfoldable pub open_count : Board → ℕ
open_count b = length b.handles
