-- ===== src/Device.antt =====
-- `Device` of rust/src/device.rs: one open device, and the operations on it. An operation takes
-- the device and the world behind the transport, and gives both back with its outcome.
pub mod Ids
pub mod Monad
pub mod RequestIds
pub mod Reports
pub mod Configure
pub mod Discovery
use hidpin.Base.{
  ℕ, zero, suc, ◌+◌, ◌^◌, Bool, true, false, not, ◌&&◌, ◌||◌, Option, none, some, List, [], ◌∷◌,
  ◌++◌, map, ltb, leb, ◌==◌, differ, if◌then◌else◌, length, set, replicate, drop, bit_or,
}
use hidpin.Base.Bytes.{byte_at, wrapping_sub16}
use hidpin.Base.Text.{Text, text, decimal}
use hidpin.Error.{
  Error, Result, ok, err, malformed, invalid_argument, protocol_version_error, pin_config_rejected,
  pin_config_conflict, pin_config_mismatch,
}
use hidpin.Protocol.Config
use hidpin.Protocol.Config.{
  PinConfigReport, decode_pin_config, encode_pin_config_set, validate_pin_config,
}
use hidpin.Protocol.Flags
use hidpin.Protocol.Info.{DeviceInfo, decode_device_info}
use hidpin.Protocol.Layout.{
  report_len, gpio_count, report_id_status, report_id_device_info, report_id_pin_config,
  report_id_output, out_of_range,
}
use hidpin.Protocol.Output.{encode_output}
use hidpin.Protocol.Pins.{
  PinConfig, PinSetting, pull_up, mode_eq, setting_at, config_eq, with_pins, mask_to_gpios,
}
use hidpin.Protocol.ResultCode
use hidpin.Protocol.Status.{StatusReport, decode_status, level_of}
use hidpin.Protocol.Version.{protocol_version}
use hidpin.Transport.{Host, Outcome, done, raised, blocked, of_result, of_io}
use Monad.{Device, Session, Op, pure, raise, lift, modify, raise_if, with_buffer, ◌>>=◌, ◌>>◌}
use RequestIds.{next_request_id}

-- A whole report buffer with its report ID.
abbrev pub request_buffer : ℕ → List ℕ
request_buffer report_id = set (replicate report_len 0) 0 report_id

-- `Device::new`, with the seed of its generator.
unfoldable pub new_device : {H : Type 0} → H → Text → ℕ → Device H
new_device transport serial seed = record {
  transport = transport;
  serial = serial;
  info = none;
  config = none;
  polarity = [];
  seed = seed;
  last_request_id = 0;
  last_seq = none;
  missed = 0;
}

-- `StatusReport::seq` against the last one read: how many reports in between were not, by
-- wrapping 16-bit subtraction.
unfoldable pub reports_between : ℕ → ℕ → ℕ
reports_between seq last = wrapping_sub16 (wrapping_sub16 seq last) 1

abbrev pub count_missed : StatusReport → Option ℕ → ℕ → ℕ
count_missed report none missed = missed
count_missed report (some last) missed = missed + reports_between report.seq last

-- What `read_status` records of a report that was not asked for.
abbrev pub note_report : {H : Type 0} → StatusReport → Device H → Device H
note_report report d =
    if Flags.contains report.reason Flags.host_request
    then d
    else record d { last_seq = some report.seq; missed = count_missed report d.last_seq d.missed }

-- The mask and the value of `set_outputs`, or its error at a GPIO of 30 or more.
unfoldable pub output_words : List (ℕ × Bool) → ℕ → ℕ → Result (ℕ × ℕ)
output_words [] mask value = ok (mask, value)
output_words ((gpio, high) ∷ levels) mask value =
    let rest =
      output_words levels (bit_or mask (2 ^ gpio))
        (if high then bit_or value (2 ^ gpio) else value) in
    if leb gpio_count gpio then err (invalid_argument (out_of_range gpio)) else rest

-- The map of overrides, the latest entry of a GPIO first.
unfoldable pub polarity_of : List (ℕ × Bool) → ℕ → Option Bool
polarity_of [] gpio = none
polarity_of ((g, active_low) ∷ rest) gpio =
    if g == gpio then some active_low else polarity_of rest gpio

abbrev or_pull : Option Bool → PinSetting → Bool
or_pull (some active_low) s = active_low
or_pull none s = mode_eq s.mode pull_up

-- Whether LOW means ON, by the overrides and the pull.
unfoldable pub is_active_low : List (ℕ × Bool) → ℕ → PinConfig → Bool
is_active_low polarity gpio config = or_pull (polarity_of polarity gpio) (setting_at config gpio)

-- The ON/OFF of every monitored pin of a report, by GPIO number.
unfoldable pub on_off : List (ℕ × Bool) → StatusReport → PinConfig → List (ℕ × Bool)
on_off polarity report config =
    map (λ g. (g, differ (level_of report g) (is_active_low polarity g config)))
      (mask_to_gpios report.monitored)

module _ {E H : Type 0} (host : Host E H) where
  -- `self.transport.get_feature_report(&mut buf)?`, and the buffer as it comes back.
  unfoldable pub transport_feature : List ℕ → Op E H (ℕ × List ℕ)
  transport_feature buf s =
      let (r, buf', e) = host.get_feature_report s.device.transport buf s.env in
      with_buffer (of_io r) buf' (record s { env = e })

  unfoldable pub transport_input : List ℕ → Op E H (ℕ × List ℕ)
  transport_input buf s =
      let (r, buf', e) = host.get_input_report s.device.transport buf s.env in
      with_buffer (of_io r) buf' (record s { env = e })

  -- `read_raw`
  unfoldable pub read_raw : List ℕ → Option ℕ → Op E H (ℕ × List ℕ)
  read_raw buf timeout s =
      let (r, buf', e) = host.read s.device.transport buf timeout s.env in
      with_buffer (of_io r) buf' (record s { env = e })

  unfoldable pub transport_send_feature : List ℕ → Op E H ℕ
  transport_send_feature report s =
      let (r, e) = host.send_feature_report s.device.transport report s.env in
      (of_io r, record s { env = e })

  unfoldable pub transport_write : List ℕ → Op E H ℕ
  transport_write report s =
      let (r, e) = host.write s.device.transport report s.env in (of_io r, record s { env = e })

  unfoldable pub get_feature : ℕ → Op E H (List ℕ)
  get_feature report_id = do
    (n, buf) ← transport_feature (request_buffer report_id)
    raise_if (ltb n report_len) (
        malformed (
          text "feature report "
          ++ (decimal report_id ++ (text " is only " ++ (decimal n ++ text " bytes long")))))
    raise_if (not (byte_at buf 0 == report_id)) (
        malformed (
          text "asked for feature report "
          ++ (decimal report_id ++ (text " but got report " ++ decimal (byte_at buf 0)))))
    pure (drop 1 buf)

  unfoldable pub read_info : Op E H DeviceInfo
  read_info = do
    p ← get_feature report_id_device_info
    i ← lift (decode_device_info p)
    raise_if (not (i.protocol_version == protocol_version))
        (protocol_version_error i.protocol_version)
    modify (λ d. record d { info = some i }) i

  unfoldable pub cached : {A : Type 0} → Option A → Op E H A → Op E H A
  cached (some a) read = pure a
  cached none read = read

  -- The device information, read once and checked for the protocol version.
  unfoldable pub info : Op E H DeviceInfo
  info s = cached s.device.info read_info s

  -- Reads the pin configuration report now.
  unfoldable pub get_pin_config : Op E H PinConfigReport
  get_pin_config = do
    p ← get_feature report_id_pin_config
    report ← lift (decode_pin_config p)
    modify (λ d. record d { config = some report.config }) report

  unfoldable pub read_pin_config : Op E H PinConfig
  read_pin_config = do report ← get_pin_config; pure report.config

  -- The pin configuration, read only when it has not been read.
  unfoldable pub pin_config : Op E H PinConfig
  pin_config s = cached s.device.config read_pin_config s

module _ {E H : Type 0} (host : Host E H) (rounds : ℕ) where
  unfoldable pub drawn : Option (ℕ × ℕ) → Op E H ℕ
  drawn none s = (blocked, s)
  drawn (some (seed', id)) s =
      (done id, record s { device = record s.device { seed = seed'; last_request_id = id } })

  -- `Device::next_request_id`; `rounds` bounds its loop.
  unfoldable pub draw_request_id : Op E H ℕ
  draw_request_id s = drawn (next_request_id rounds s.device.seed s.device.last_request_id) s

  -- The checks on the report that is read back after a write.
  unfoldable pub check_readback : PinConfig → ℕ → PinConfigReport → Op E H PinConfigReport
  check_readback config request_id read = do
    raise_if (not (read.request_id == request_id)) (pin_config_conflict request_id read.request_id)
    raise_if (not (read.result == ResultCode.ok))
        (pin_config_rejected read.result read.result_gpio false)
    raise_if (not (config_eq read.config config)) pin_config_mismatch
    pure read

  -- Writes a whole pin configuration and verifies that it was applied.
  unfoldable pub set_pin_config : PinConfig → Op E H PinConfigReport
  set_pin_config config = do
    i ← info host
    let (result, gpio) = validate_pin_config config i.available
    raise_if (not (result == ResultCode.ok)) (pin_config_rejected result gpio true)
    request_id ← draw_request_id
    payload ← lift (encode_pin_config_set config request_id)
    transport_send_feature host (report_id_pin_config ∷ payload)
    read ← get_pin_config host
    check_readback config request_id read

  -- Changes some pins and keeps every other pin as it is.
  unfoldable pub update_pins : List (ℕ × PinSetting) → Op E H PinConfigReport
  update_pins settings = do
    report ← get_pin_config host
    config ← lift (with_pins report.config settings)
    set_pin_config config

module _ {E H : Type 0} (host : Host E H) where
  -- Asks for the current state with Get_Report(Input).
  unfoldable pub request_status : Op E H StatusReport
  request_status = do
    (n, buf) ← transport_input host (request_buffer report_id_status)
    raise_if (ltb n report_len || not (byte_at buf 0 == report_id_status))
        (malformed (text "could not read the status report"))
    lift (decode_status (drop 1 buf))

  unfoldable pub read_report : ℕ → List ℕ → Op E H (Option StatusReport)
  read_report n buf = do
    raise_if (not (byte_at buf 0 == report_id_status))
        (malformed (text "received an unexpected report ID " ++ decimal (byte_at buf 0)))
    raise_if (ltb n report_len)
        (malformed (text "status report is only " ++ (decimal n ++ text " bytes long")))
    report ← lift (decode_status (drop 1 buf))
    modify (note_report report) (some report)

  -- Waits for the next status report; `none` when the timeout expires.
  unfoldable pub read_status : Option ℕ → Op E H (Option StatusReport)
  read_status timeout = do
    (n, buf) ← read_raw host (replicate report_len 0) timeout
    if n == 0 then pure none else read_report n buf

  -- Drives the output pins in `mask` to the levels in `value`.
  unfoldable pub write_outputs : ℕ → ℕ → Op E H (Unit {0})
  write_outputs mask value = do
    transport_write host (report_id_output ∷ encode_output mask value)
    pure tt

  -- Drives output pins; a GPIO outside 0-29 is an error and nothing is sent.
  unfoldable pub set_outputs : List (ℕ × Bool) → Op E H (Unit {0})
  set_outputs levels = do (mask, value) ← lift (output_words levels 0 0); write_outputs mask value

  -- Overrides which level counts as ON for one pin.
  unfoldable pub set_polarity : ℕ → Bool → Op E H (Unit {0})
  set_polarity gpio active_low =
      modify (λ d. record d { polarity = (gpio, active_low) ∷ d.polarity }) tt
