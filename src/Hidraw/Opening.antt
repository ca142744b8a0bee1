-- ===== src/Hidraw/Opening.antt =====
-- `Device::open`, `open_path` and `open_on` of rust/src/device.rs.
use hidpin.Base.{Option, List}
use hidpin.Base.Text.{Text}
use hidpin.Device.{new_device, info}
use hidpin.Device.Discovery.{choose_device}
use hidpin.Device.Ids.{find_devices}
use hidpin.Device.Monad.{Device, Session}
use hidpin.Device.RequestIds.{new_seed}
use hidpin.Error.{Result, ok, err}
use hidpin.Hidraw.Bus.{Platform, open_transport, system_bus}
use hidpin.Protocol.Info.{DeviceInfo}
use hidpin.Transport.{Host, DeviceEntry, Outcome, done, raised, blocked}

module _ {E H : Type 0} (host : Host E H) where
  -- A device whose information cannot be read is dropped, and with it its transport.
  unfoldable pub informed : Outcome DeviceInfo → Session E H → Outcome (Device H) × E
  informed (done i) s = (done s.device, s.env)
  informed (raised e) s = (raised e, host.close s.device.transport s.env)
  informed blocked s = (blocked, s.env)

  unfoldable pub open_on : H → Text → E → Outcome (Device H) × E
  open_on transport serial e =
      let ((nanos, pid), e') = host.seed_source e in
      let device = new_device transport serial (new_seed nanos pid) in
      let (r, s) = info host (record { device = device; env = e' }) in informed r s

module _ {E F : Type 0} (platform : Platform E F) where
  unfoldable pub open_with : Text → Result F × E → Outcome (Device F) × E
  open_with serial (err error, e) = (raised error, e)
  open_with serial (ok file, e) = open_on (system_bus platform) file serial e

  -- `Device::open_path`
  unfoldable pub open_path : Text → Text → E → Outcome (Device F) × E
  open_path path serial e = open_with serial (open_transport platform path e)

  unfoldable pub open_chosen : Result DeviceEntry → E → Outcome (Device F) × E
  open_chosen (err error) e = (raised error, e)
  open_chosen (ok entry) e = open_path entry.path entry.serial e

  unfoldable pub choose_from : Option Text → Result (List DeviceEntry) → E → Outcome (Device F) × E
  choose_from serial (err error) e = (raised error, e)
  choose_from serial (ok entries) e = open_chosen (choose_device entries serial) e

  -- `Device::open`
  unfoldable pub open_device : Option Text → E → Outcome (Device F) × E
  open_device serial e = choose_from serial (find_devices (platform.files e) platform.variables) e
