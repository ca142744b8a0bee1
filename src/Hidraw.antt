-- ===== src/Hidraw.antt =====
-- rust/src/hidraw.rs: a device node of Linux as a transport. The system calls are a parameter, a
-- record of operations on a state of the system; a call that gives a negative number has left its
-- error to be asked for.
pub mod Descriptor
pub mod Ioctl
pub mod Sysfs
pub mod Bus
pub mod Opening
use hidpin.Base.{
  ◌≤◌, Bool-cases, inl, inr, arith, ℕ, ◌+◌, ◌-◌, ◌/◌, ◌^◌, min, ◌==◌, ◌⊎◌, Option, none, some, List,
  if◌then◌else◌, length,
}
use hidpin.Base.Text.{Text}
use hidpin.Error.{IoError}
use hidpin.Hidraw.Ioctl.{hidioc_s_feature, hidioc_g_feature, hidioc_g_input}
use hidpin.Transport.{FitsIn, IoOutcome, returned, failed, waits}

-- What a system call gives: a number, a negative number, or nothing, as it never returns.
pub data Called : Type 0 where
  value : ℕ → Called
  negative never : Called

-- The calls on an open file `F`. The timeout of `poll` is in milliseconds, none for -1.
pub record Kernel (E F : Type 0) : Type 0 where
  pub open_file : Text → E → (IoError ⊎ F) × E
  pub ioctl : F → ℕ → List ℕ → E → Called × List ℕ × E
  pub poll_in : F → Option ℕ → E → Called × E
  pub read_file : F → List ℕ → E → IoOutcome ℕ × List ℕ × E
  -- `File::read` does not return more bytes than the buffer holds.
  pub read_file_fits :
      (file : F) (buf : List ℕ) (e : E) → FitsIn (length buf) (read_file file buf e).0
  pub write_file : F → List ℕ → E → IoOutcome ℕ × E
  pub last_os_error : E → IoError

-- A timeout in nanoseconds as `poll` takes it.
unfoldable pub millis : Option ℕ → Option ℕ
millis none = none
millis (some d) = some (min (d / 1_000_000) (2 ^ 31 - 1))

module _ {E F : Type 0} (kernel : Kernel E F) where
  -- `HidrawDevice::open`
  unfoldable pub open_device : Text → E → (IoError ⊎ F) × E
  open_device path e = kernel.open_file path e

  unfoldable pub checked : Called → E → IoOutcome ℕ
  checked (value n) e = returned n
  checked negative e = failed (kernel.last_os_error e)
  checked never e = waits

  -- `HidrawDevice::ioctl`
  unfoldable pub ioctl : ℕ → F → List ℕ → E → IoOutcome ℕ × List ℕ × E
  ioctl request file buf e =
      let (r, buf', e') = kernel.ioctl file request buf e in (checked r e', buf', e')

  -- What follows from the poll of `read`.
  unfoldable pub polled : Called → F → List ℕ → E → IoOutcome ℕ × List ℕ × E
  polled negative file buf e = (failed (kernel.last_os_error e), buf, e)
  polled never file buf e = (waits, buf, e)
  polled (value ready) file buf e =
      if ready == 0 then (returned 0, buf, e) else kernel.read_file file buf e

  unfoldable pub read : F → List ℕ → Option ℕ → E → IoOutcome ℕ × List ℕ × E
  read file buf timeout e =
      let (ready, e') = kernel.poll_in file (millis timeout) e in polled ready file buf e'

  polled-FitsIn :
      (ready : Called) (file : F) (buf : List ℕ) (e : E)
      → FitsIn (length buf) (polled ready file buf e).0
  unfolding polled
  polled-FitsIn negative file buf e = tt
  polled-FitsIn never file buf e = tt
  polled-FitsIn (value ready) file buf e = elim (Bool-cases (ready == 0)) [
    | inl h ↦ rw h (omega arith)
    | inr h ↦ rw h (kernel.read_file_fits file buf e)
  ]

  pub read-FitsIn :
      (file : F) (buf : List ℕ) (timeout : Option ℕ) (e : E)
      → FitsIn (length buf) (read file buf timeout e).0
  unfolding read
  read-FitsIn file buf timeout e = polled-FitsIn _ file buf _

  unfoldable pub write : F → List ℕ → E → IoOutcome ℕ × E
  write file report e = kernel.write_file file report e

  unfoldable pub get_feature_report : F → List ℕ → E → IoOutcome ℕ × List ℕ × E
  get_feature_report file buf e = ioctl (hidioc_g_feature (length buf)) file buf e

  -- The copy of the report that the call may change is dropped.
  unfoldable pub send_feature_report : F → List ℕ → E → IoOutcome ℕ × E
  send_feature_report file report e =
      let (r, buf, e') = ioctl (hidioc_s_feature (length report)) file report e in (r, e')

  unfoldable pub get_input_report : F → List ℕ → E → IoOutcome ℕ × List ℕ × E
  get_input_report file buf e = ioctl (hidioc_g_input (length buf)) file buf e
