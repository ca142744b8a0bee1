-- ===== src/Watch/Connect/Finding.antt =====
-- `try_connect` and `connect` of rust/src/watch.rs: how the watcher finds the device, opens it and
-- makes it follow the target. A device that is given up is closed, as it is dropped.
use hidpin.Base.{
  ℕ, ◌+◌, Bool, true, false, Option, none, some, List, [], ◌∷◌, map, ltb, ◌&&◌, if◌then◌else◌,
  length, filter,
}
use hidpin.Base.Text.{Text, text_eq}
use hidpin.Error.{
  Error, Result, ok, err, pin_config_rejected, unsupported_platform, several_devices,
}
use hidpin.Device.{new_device, info, get_pin_config, set_pin_config}
use hidpin.Device.Monad.{Device}
use hidpin.Device.RequestIds.{new_seed}
use hidpin.Protocol.Config.{PinConfigReport}
use hidpin.Protocol.Info.{DeviceInfo}
use hidpin.Protocol.Pins.{PinConfig, config_eq, mask_to_gpios, outputs_mask}
use hidpin.Transport.{Host, DeviceEntry}
use hidpin.Watch.Clock.{new_clock}
use hidpin.Watch.Connect.{failed, reset_failures, outputs_event, scan_later, settle_timeout}
use hidpin.Watch.Connect.Report.{snapshot}
use hidpin.Watch.Events.{connected, reconnect, pin_config, driven_outputs}
use hidpin.Watch.Levels.{set_config}
use hidpin.Watch.Loop.{
  WatchLoop, Act, going, pure, stop, modify, emitted, skip, in_device, now, close, ◌>>=◌, ◌>>◌,
}

-- Whether an entry is the device that is looked for.
unfoldable pub wanted : Option Text → DeviceEntry → Bool
wanted none entry = true
wanted (some serial) entry = text_eq entry.serial serial

abbrev pub serials_of : List DeviceEntry → List Text
serials_of entries = map (λ e. e.serial) entries

module _ {E H : Type 0} where
  -- The outputs that are at their initial output level now.
  unfoldable pub reset_by_connecting : Bool → PinConfig → List ℕ → WatchLoop E H → WatchLoop E H
  reset_by_connecting reconnected found driven w =
      let outputs = mask_to_gpios (outputs_mask found) in
      if reconnected && ltb 0 (length outputs)
      then outputs_event outputs reconnect w
      else outputs_event driven pin_config w

  -- The state of a watcher with the device connected.
  unfoldable pub now_connected :
      DeviceEntry
      → Device H
      → DeviceInfo
      → PinConfig
      → List ℕ
      → Bool
      → WatchLoop E H
      → WatchLoop E H
  now_connected entry d i found driven awaiting w =
      let w1 = record w {
        conn = some (record {
          device = d;
          clock = new_clock;
          last_seq = none;
          snapshot_seq = none;
          awaiting_config = awaiting;
        });
      } in
      let w2 = set_config found (record (reset_failures w1) { ever_connected = true }) in
      let w3 = emitted (connected entry.serial entry.path i found w.ever_connected) w2 in
      reset_by_connecting w.ever_connected found driven w3

module _ {E H : Type 0} (host : Host E H) where
  -- A failed attempt: the device is dropped and the error passed on.
  unfoldable pub give_up : Device H → Error → Act E H (Result (Unit {0}))
  give_up d e = do close host d; pure (err e)

  unfoldable pub open_bus : DeviceEntry → Act E H (Result H)
  open_bus entry w = let (r, e) = host.open_entry entry w.env in (going r, record w { env = e })

  -- `Device::new`, with the generator of its request ids started.
  unfoldable pub start_device : H → Text → Act E H (Device H)
  start_device handle serial w =
      let ((nanos, pid), e) = host.seed_source w.env in
      (going (new_device handle serial (new_seed nanos pid)), record w { env = e })

module _ {E H : Type 0} (host : Host E H) (rounds : ℕ) where
  unfoldable pub settle_or_ask : Bool → Act E H (Unit {0})
  settle_or_ask true = do
    t ← now host
    modify (λ w. record w { settle_at = some (t + settle_timeout) })
  settle_or_ask false = snapshot host rounds

  unfoldable pub finish :
      DeviceEntry → Device H → DeviceInfo → PinConfig → List ℕ → Bool → Act E H (Result (Unit {0}))
  finish entry d i found driven awaiting = do
    modify (now_connected entry d i found driven awaiting)
    settle_or_ask awaiting
    pure (ok tt)

  unfoldable pub target_sent :
      DeviceEntry
      → DeviceInfo
      → PinConfig
      → PinConfig
      → Result PinConfigReport × Device H
      → Act E H (Result (Unit {0}))
  target_sent entry i found target (ok r, d) =
      finish entry d i target (driven_outputs found target) true
  target_sent entry i found target (err (pin_config_rejected result gpio here), d) = do
    close host d
    stop (pin_config_rejected result gpio here)
  target_sent entry i found target (err error, d) = give_up host d error

  -- The configuration of the device against the target.
  unfoldable pub reconcile :
      DeviceEntry
      → DeviceInfo
      → PinConfig
      → Device H
      → Option PinConfig
      → Act E H (Result (Unit {0}))
  reconcile entry i found d none = finish entry d i found [] false
  reconcile entry i found d (some target) =
      if config_eq found target
      then finish entry d i found [] false
      else in_device d (set_pin_config host rounds target) >>= target_sent entry i found target

  unfoldable pub config_found :
      DeviceEntry → DeviceInfo → Result PinConfigReport × Device H → Act E H (Result (Unit {0}))
  config_found entry i (err error, d) w = give_up host d error w
  config_found entry i (ok report, d) w = reconcile entry i report.config d w.target w

  unfoldable pub informed : DeviceEntry → Result DeviceInfo × Device H → Act E H (Result (Unit {0}))
  informed entry (err error, d) = give_up host d error
  informed entry (ok i, d) = do
    modify (λ w. record w { info = some i })
    read ← in_device d (get_pin_config host)
    config_found entry i read

  unfoldable pub opened : DeviceEntry → Result H → Act E H (Result (Unit {0}))
  opened entry (err error) = pure (err error)
  opened entry (ok handle) = do
    d ← start_device host handle entry.serial
    read ← in_device d (info host)
    informed entry read

  -- `connect`: the result is the failed attempt, a fatal verdict stops the watcher.
  unfoldable pub connect : DeviceEntry → Act E H (Result (Unit {0}))
  connect entry = do handle ← open_bus host entry; opened entry handle

  unfoldable pub attempt_failed : Error → Act E H (Unit {0})
  attempt_failed error = do modify (failed error); scan_later host

  unfoldable pub attempted : Result (Unit {0}) → Act E H (Unit {0})
  attempted (ok u) = skip
  attempted (err error) = attempt_failed error

  unfoldable pub connect_first : DeviceEntry → Act E H (Unit {0})
  connect_first entry = do
    modify (λ w. record w { serial = some entry.serial })
    r ← connect entry
    attempted r

  -- The entries that are wanted: none, one, or several.
  unfoldable pub choose : Option Text → List DeviceEntry → Act E H (Unit {0})
  choose serial [] = do modify reset_failures; scan_later host
  choose (some serial) (entry ∷ rest) = connect_first entry
  choose none (entry ∷ []) = connect_first entry
  choose none (entry ∷ (e ∷ rest)) = stop (several_devices (serials_of (entry ∷ (e ∷ rest))))

  unfoldable pub found_devices : Result (List DeviceEntry) → Act E H (Unit {0})
  found_devices (err unsupported_platform) w = stop unsupported_platform w
  found_devices (err error) w = attempt_failed error w
  found_devices (ok entries) w = choose w.serial (filter (wanted w.serial) entries) w

  unfoldable pub list_devices : Act E H (Result (List DeviceEntry))
  list_devices w = let (r, e) = host.devices w.env in (going r, record w { env = e })

  -- `try_connect`
  unfoldable pub try_connect : Act E H (Unit {0})
  try_connect = do r ← list_devices; found_devices r
