-- ===== src/Error.antt =====
-- The errors and the result type of rust/src/error.rs. An error of the operating system
-- (`std::io::Error`) is its kind and the text that it displays.
pub mod Display
use hidpin.Base.{ℕ, ◌≡◌, refl, Bool, Option, List}
use hidpin.Base.Text.{Text}

-- The kinds of `std::io::ErrorKind` that the program names; `other` is every further kind.
pub data ErrorKind : Type 0 where
  not_connected not_found permission_denied invalid_input other : ErrorKind

pub record IoError : Type 0 where
  pub kind : ErrorKind
  pub shown : Text

-- `enum Error`; result codes and GPIO numbers are bytes.
pub data Error : Type 0 where
  device_not_found : Option Text → Error
  several_devices : List Text → Error
  protocol_version_error : ℕ → Error
  pin_config_rejected : ℕ → ℕ → Bool → Error
  pin_config_conflict : ℕ → ℕ → Error
  pin_config_mismatch : Error
  unsupported_platform : Error
  device_disconnected : Error
  watcher_closed : Error
  malformed : Text → Error
  invalid_argument : Text → Error
  open_error : Text → IoError → Error
  io_error : IoError → Error

pub data Result {ℓ} (A : Type ℓ) : Type ℓ where
  ok : A → Result A
  err : Error → Result A

infixl 5 ◌>>=◌ ◌>>◌
abbrev pub ◌>>=◌ {ℓ κ} : {A : Type ℓ} {B : Type κ} → Result A → (A → Result B) → Result B
ok a >>= f = f a
err e >>= f = err e

abbrev pub ◌>>◌ {ℓ κ} : {A : Type ℓ} {B : Type κ} → Result A → Result B → Result B
m >> k = m >>= λ _. k
