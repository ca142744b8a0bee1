-- ===== src/Board/EndToEnd.antt =====
-- A device (rust/src/device.rs) on an open handle of the simulated board of rust/src/testing.rs.
use mathlib.Core.Path.{subst}
use hidpin.Base.{ℕ, ◌≤◌, ◌≡◌, ap, ◌∙◌, none, some, ◌∷◌, length, arith}
use hidpin.Base.Text.{Text}
use hidpin.Error.{ErrorKind, ok}
use hidpin.Protocol.Config
use hidpin.Protocol.Config.{PinConfigReport, encode_pin_config_set, validate_pin_config}
use hidpin.Protocol.Config.Accepted.{sent_report}
use hidpin.Protocol.Info.{DeviceInfo}
use hidpin.Protocol.Layout.{gpio_count, report_id_pin_config}
use hidpin.Protocol.Pins.{PinConfig}
use hidpin.Protocol.ResultCode
use hidpin.Protocol.ResultCode.{result_gpio_none}
use hidpin.Transport.{done}
use hidpin.Device.{
  info, cached, draw_request_id, drawn, set_pin_config, transport_send_feature, get_pin_config,
}
use hidpin.Device.Monad.{Session, ◌>>=◌}
use hidpin.Device.Configure.{check_readback-done}
use hidpin.Device.RequestIds.{next_request_id, next_request_id-fresh}
use hidpin.Board.{Board}
use hidpin.Board.Config.{write_config}
use hidpin.Board.Answers.{get_pin_config-board, board_report}
use hidpin.Board.Handle.{check, send_feature_report}
use hidpin.Board.World.{World, board_host}
use hidpin.Board.Writing.{Written, Keeps, write_config-Written}

-- A step that keeps the state of the handles keeps an open handle open.
check-Keeps : (h : ℕ) (b c : Board) → Keeps b c → check h b ≡ none → check h c ≡ none
unfolding check
check-Keeps h b c v e = rw (v.same_failed h, v.same_closed h) e

encode_pin_config_set-ok :
    (config : PinConfig) (id : ℕ)
    → 1 ≤ id
    → encode_pin_config_set config id ≡ ok (Config.encode (sent_report config id))
unfolding encode_pin_config_set
encode_pin_config_set-ok config id h = ground arith

module _ (kind_text : ErrorKind → Text) (rounds : ℕ) (config : PinConfig)
    (s : Session World ℕ) where
  board : Board
  board = s.env.board

  -- The world after the payload with this request_id was sent.
  after_sending : ℕ → ℕ → Session World ℕ
  after_sending seed' id = record {
    device = record s.device { seed = seed'; last_request_id = id };
    env = record s.env { board = write_config (Config.encode (sent_report config id)) s.env.board };
  }

  sending :
      (seed' id : ℕ)
      → check s.device.transport s.env.board ≡ none
      → transport_send_feature
          (board_host kind_text)
          (report_id_pin_config ∷ Config.encode (sent_report config id))
          (record s { device = record s.device { seed = seed'; last_request_id = id } })
        ≡ (
          done (length (report_id_pin_config ∷ Config.encode (sent_report config id))),
          after_sending seed' id,
        )
  unfolding transport_send_feature send_feature_report after_sending
  sending seed' id open_handle = rw open_handle

  info_known :
      {i : DeviceInfo} → s.device.info ≡ some i → info (board_host kind_text) s ≡ (done i, s)
  unfolding info cached
  info_known known = rw known

  -- On an open handle of the simulated board, with the board's information known and a request_id
  -- drawn within the rounds, writing a valid configuration of 30 settings returns: the report that
  -- is read back has the configuration, the device remembers it, and the board has it.
  pub set_pin_config-board :
      {i : DeviceInfo} {seed' id : ℕ}
      → check s.device.transport s.env.board ≡ none
      → length config ≡ gpio_count
      → s.device.info ≡ some i
      → i.available ≡ s.env.board.info.available
      → (validate_pin_config config i.available).0 ≡ ResultCode.ok
      → next_request_id rounds s.device.seed s.device.last_request_id ≡ some (seed', id)
      → (read : PinConfigReport) × (s' : Session World ℕ) × (set_pin_config
            (board_host kind_text)
            rounds
            config
            s
          ≡ (done read, s'))
        × (read.config ≡ config)
        × (s'.device.config ≡ some config)
        × (s'.env.board.config ≡ config)
  unfolding ◌>>=◌ set_pin_config draw_request_id drawn after_sending
  set_pin_config-board {i} {seed'} {id} open_handle len known same valid drew = (
    board_report board',
    record sent { device = record sent.device { config = some board'.config } },
    rw
        (
          info_known known,
          valid,
          drew,
          encode_pin_config_set-ok config id positive,
          sending seed' id open_handle,
          reading,
        )
        (check_readback-done (board_host kind_text) rounds config id (board_report board') _
          written.id_recorded accepted has_config),
    has_config,
    ap some has_config,
    has_config,
  )
    where
      positive : 1 ≤ id
      positive = (next_request_id-fresh rounds _ _ drew).0

      sent : Session World ℕ
      sent = after_sending seed' id

      board' : Board
      board' = sent.env.board

      written : Written (sent_report config id) s.env.board board'
      written = write_config-Written (sent_report config id) s.env.board len

      accepted : board'.result ≡ ResultCode.ok
      accepted =
          ap (λ r. r.0) written.verdict
          ∙ subst (λ a. (validate_pin_config config a).0 ≡ 0) same valid

      has_config : board'.config ≡ config
      has_config = written.applied accepted

      reading : get_pin_config (board_host kind_text) sent ≡ (
        done (board_report board'),
        record sent { device = record sent.device { config = some board'.config } },
      )
      reading =
          get_pin_config-board kind_text sent
            (check-Keeps s.device.transport s.env.board board' written.keeps open_handle)
            (ap length has_config ∙ len)
