-- ===== src/Transport.antt =====
-- `Transport` and `Bus` of rust/src/transport.rs: what carries reports to and from a device, and
-- what finds devices. They are an interface of the program: the operating system implements it
-- outside the program, and the simulated boards implement it inside. `E` is the state of all that
-- lies behind the interface, `H` an open handle.
use hidpin.Base.{ℕ, ◌≤◌, Option, List, length}
use hidpin.Base.Text.{Text}
use hidpin.Error.{Error, IoError, Result, ok, err, io_error}

-- One hidpin device found on the host (`DeviceEntry` of rust/src/device.rs).
pub record DeviceEntry : Type 0 where
  pub path : Text
  pub serial : Text
  pub manufacturer : Text
  pub product : Text

-- A call that may not return: `waits` stands for a thread that goes on waiting or searching.
pub data IoOutcome {ℓ} (A : Type ℓ) : Type ℓ where
  returned : A → IoOutcome A
  failed : IoError → IoOutcome A
  waits : IoOutcome A

-- A count of bytes is within a buffer of `n` bytes.
abbrev pub FitsIn : ℕ → IoOutcome ℕ → Type 0
FitsIn n (returned k) = k ≤ n
FitsIn n (failed e) = Unit
FitsIn n waits = Unit

-- A buffer goes in and comes back with the report in it; the number is the count that the call
-- returns. Timeouts and times are in nanoseconds; no timeout waits forever.
pub record Host (E H : Type 0) : Type 0 where
  pub devices : E → Result (List DeviceEntry) × E
  pub open_entry : DeviceEntry → E → Result H × E
  pub read : H → List ℕ → Option ℕ → E → IoOutcome ℕ × List ℕ × E
  -- A read does not return more bytes than the buffer holds.
  pub read_fits :
      (h : H) (buf : List ℕ) (timeout : Option ℕ) (e : E)
      → FitsIn (length buf) (read h buf timeout e).0
  pub write : H → List ℕ → E → IoOutcome ℕ × E
  pub get_feature_report : H → List ℕ → E → IoOutcome ℕ × List ℕ × E
  pub send_feature_report : H → List ℕ → E → IoOutcome ℕ × E
  pub get_input_report : H → List ℕ → E → IoOutcome ℕ × List ℕ × E
  pub close : H → E → E
  -- `Instant::now()` and `SystemTime::now()`, in nanoseconds.
  pub now : E → ℕ × E
  pub wall_now : E → ℕ × E
  -- The time in nanoseconds and the process id that `RequestIds::new` reads.
  pub seed_source : E → (ℕ × ℕ) × E

-- The outcome of an operation of the library.
pub data Outcome {ℓ} (A : Type ℓ) : Type ℓ where
  done : A → Outcome A
  raised : Error → Outcome A
  blocked : Outcome A

abbrev pub of_result {ℓ} : {A : Type ℓ} → Result A → Outcome A
of_result (ok a) = done a
of_result (err e) = raised e

-- `?` on a result of the operating system.
abbrev pub of_io {ℓ} : {A : Type ℓ} → IoOutcome A → Outcome A
of_io (returned a) = done a
of_io (failed e) = raised (io_error e)
of_io waits = blocked
