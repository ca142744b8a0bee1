-- ===== src/Board/Answers.antt =====
-- What an open handle of the simulated board (rust/src/testing.rs) answers to the requests of a device.
use hidpin.Base.{
  ℕ, zero, suc, ◌≡◌, refl, sym, ap, ◌∙◌, none, some, List, [], ◌∷◌, ==_refl, length, set, take,
  replicate, arith,
}
use hidpin.Base.Bytes.{write}
use hidpin.Base.Text.{Text}
use hidpin.Error.{ErrorKind}
use hidpin.Protocol.Config
use hidpin.Protocol.Config.{PinConfigReport}
use hidpin.Protocol.Config.Payload.{length-encode}
use hidpin.Protocol.Config.RoundTrip.{decode-encode_pin_config}
use hidpin.Protocol.Info
use hidpin.Protocol.Info.{DeviceInfo}
use hidpin.Protocol.Layout.{
  report_payload_len, gpio_count, sdk_board_len, report_id_pin_config, report_id_device_info,
}
use hidpin.Protocol.Version.{protocol_version}
use hidpin.Transport.{done}
use hidpin.Device.{request_buffer, get_feature, transport_feature, get_pin_config, read_info}
use hidpin.Device.Monad.{Session, ◌>>=◌}
use hidpin.Board.{Board}
use hidpin.Board.Handle.{check, fill, feature_payload, get_feature_report, guarded, answer}
use hidpin.Board.World.{World, board_host}

write-suc : (x : ℕ) (xs bs : List ℕ) (i : ℕ) → write (x ∷ xs) (suc i) bs ≡ x ∷ write xs i bs
unfolding write
write-suc x xs [] i = refl
write-suc x xs (b ∷ bs) i = write-suc x (set xs i b) bs (suc i)

-- A write over the whole of a list replaces it.
write-all : (xs bs : List ℕ) → length xs ≡ length bs → write xs 0 bs ≡ bs
unfolding write
write-all [] [] e = refl
write-all [] (b ∷ bs) e = absurd (omega arith)
write-all (x ∷ xs) [] e = absurd (omega arith)
write-all (x ∷ xs) (b ∷ bs) e =
    write-suc b xs bs 0 ∙ ap (λ l. b ∷ l) (write-all xs bs (omega arith))

take-length : (n : ℕ) (bs : List ℕ) → length bs ≡ n → take n bs ≡ bs
take-length zero [] e = refl
take-length zero (b ∷ bs) e = absurd (omega arith)
take-length (suc n) [] e = refl
take-length (suc n) (b ∷ bs) e = ap (λ l. b ∷ l) (take-length n bs (omega arith))

-- A payload of 63 bytes fills a request buffer behind its report ID.
pub fill-request :
    (id : ℕ) (payload : List ℕ)
    → length payload ≡ report_payload_len
    → fill (request_buffer id) payload ≡ id ∷ payload
fill-request id payload e =
    rw (e, write-suc id (replicate 63 0) (take 63 payload) 0, take-length 63 payload e)
      (ap (λ l. id ∷ l) (write-all (replicate 63 0) payload (sym e)))

-- What the board reports of its pin configuration.
abbrev pub board_report : Board → PinConfigReport
board_report b = record {
  result = b.result;
  result_gpio = b.result_gpio;
  request_id = b.request_id;
  config = b.config;
}

-- The device information of a board as a host sees it: the name is cut to 40 bytes.
abbrev pub shown_info : DeviceInfo → DeviceInfo
shown_info i = record i { sdk_board = take sdk_board_len i.sdk_board }

-- A board whose information fits its report.
pub record Presentable (i : DeviceInfo) : Type 0 where
  pub ranges : Info.RoundTrip.InRange i
  pub printable : Info.RoundTrip.Printable i.sdk_board
  pub version_known : i.protocol_version ≡ protocol_version

module _ (kind_text : ErrorKind → Text) where
  -- A device on an open handle reads the payload that the board has for the report ID.
  pub get_feature-board :
      (id : ℕ) (payload : List ℕ) (s : Session World ℕ)
      → check s.device.transport s.env.board ≡ none
      → feature_payload id s.env.board ≡ some payload
      → length payload ≡ report_payload_len
      → get_feature (board_host kind_text) id s ≡ (done payload, s)
  unfolding ◌>>=◌ get_feature transport_feature get_feature_report guarded answer
  get_feature-board id payload s open_handle known len =
      rw (open_handle, known, fill-request id payload len, len, ==_refl id)

  -- A device reads the configuration, the last result and the last request_id of the board.
  pub get_pin_config-board :
      (s : Session World ℕ)
      → check s.device.transport s.env.board ≡ none
      → length s.env.board.config ≡ gpio_count
      → get_pin_config (board_host kind_text) s ≡ (
        done (board_report s.env.board),
        record s { device = record s.device { config = some s.env.board.config } },
      )
  unfolding ◌>>=◌ get_pin_config feature_payload
  get_pin_config-board s open_handle len = rw (
    get_feature-board report_id_pin_config (Config.encode (board_report s.env.board)) s open_handle
        refl (length-encode (board_report s.env.board)),
    decode-encode_pin_config (board_report s.env.board) len,
  )

  pub read_info-board :
      (s : Session World ℕ)
      → check s.device.transport s.env.board ≡ none
      → Presentable s.env.board.info
      → read_info (board_host kind_text) s ≡ (
        done (shown_info s.env.board.info),
        record s { device = record s.device { info = some (shown_info s.env.board.info) } },
      )
  unfolding ◌>>=◌ read_info feature_payload
  read_info-board s open_handle v = rw (
    get_feature-board report_id_device_info (Info.encode s.env.board.info) s open_handle refl
        (Info.RoundTrip.length-encode s.env.board.info v.ranges),
    Info.RoundTrip.decode-encode_device_info s.env.board.info v.ranges v.printable,
    v.version_known,
  )
