-- ===== src/Hidraw/Bus.antt =====
-- `SystemBus` of rust/src/device.rs: the operating system as the interface to transports that the
-- library uses. The clocks and the end of a file are further calls of the system.
use hidpin.Base.{ℕ, ◌⊎◌, inl, inr, Option}
use hidpin.Base.Text.{Text}
use hidpin.Device.Ids.{find_devices}
use hidpin.Error.{IoError, Result, ok, err, open_error}
use hidpin.Hidraw.{
  Kernel, open_device, read, read-FitsIn, write, get_feature_report, send_feature_report,
  get_input_report,
}
use hidpin.Hidraw.Sysfs.{FileSystem}
use hidpin.Transport.{Host}

-- What else the program asks of the system.
pub record Platform (E F : Type 0) : Type 0 where
  pub kernel : Kernel E F
  pub files : E → FileSystem
  pub variables : Text → Option Text
  pub close_file : F → E → E
  pub now : E → ℕ × E
  pub wall_now : E → ℕ × E
  pub seed_source : E → (ℕ × ℕ) × E

-- The result of `open_transport`
unfoldable pub opened : {F : Type 0} → Text → IoError ⊎ F → Result F
opened path (inl e) = err (open_error path e)
opened path (inr file) = ok file

module _ {E F : Type 0} (platform : Platform E F) where
  unfoldable pub open_transport : Text → E → Result F × E
  open_transport path e = let (r, e') = open_device platform.kernel path e in (opened path r, e')

  -- `SystemBus` with the transports that it opens
  unfoldable pub system_bus : Host E F
  system_bus = record {
    devices = λ e. (find_devices (platform.files e) platform.variables, e);
    open_entry = λ entry e. open_transport entry.path e;
    read = λ file buf timeout e. read platform.kernel file buf timeout e;
    read_fits = λ file buf timeout e. read-FitsIn platform.kernel file buf timeout e;
    write = λ file report e. write platform.kernel file report e;
    get_feature_report = λ file buf e. get_feature_report platform.kernel file buf e;
    send_feature_report = λ file report e. send_feature_report platform.kernel file report e;
    get_input_report = λ file buf e. get_input_report platform.kernel file buf e;
    close = λ file e. platform.close_file file e;
    now = λ e. platform.now e;
    wall_now = λ e. platform.wall_now e;
    seed_source = λ e. platform.seed_source e;
  }
