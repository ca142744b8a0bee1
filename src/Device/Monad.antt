-- ===== src/Device/Monad.antt =====
-- The state of an open device, and the operations on it as state passing with outcomes.
use hidpin.Base.{ℕ, Bool, Option, List, if◌then◌else◌}
use hidpin.Base.Text.{Text}
use hidpin.Error.{Error, Result}
use hidpin.Protocol.Info.{DeviceInfo}
use hidpin.Protocol.Pins.{PinConfig}
use hidpin.Transport.{Outcome, done, raised, blocked, of_result}

-- `struct Device`; `seed` is the state of its generator of request ids, and `polarity` its map of
-- overrides, the latest first.
pub record Device (H : Type 0) : Type 0 where
  pub transport : H
  pub serial : Text
  pub info : Option DeviceInfo
  pub config : Option PinConfig
  pub polarity : List (ℕ × Bool)
  pub seed : ℕ
  pub last_request_id : ℕ
  pub last_seq : Option ℕ
  pub missed : ℕ

-- A device and the world behind its transport.
pub record Session (E H : Type 0) : Type 0 where
  pub device : Device H
  pub env : E

abbrev pub Op : Type 0 → Type 0 → Type 0 → Type 0
Op E H A = Session E H → Outcome A × Session E H

module _ {E H A : Type 0} where
  abbrev pub pure : A → Op E H A
  pure a s = (done a, s)

  abbrev pub raise : Error → Op E H A
  raise e s = (raised e, s)

  abbrev pub lift : Result A → Op E H A
  lift r s = (of_result r, s)

  abbrev pub modify : (Device H → Device H) → A → Op E H A
  modify f a s = (done a, record s { device = f s.device })

module _ {E H A B : Type 0} where
  abbrev pub continue : Outcome A → (A → Op E H B) → Op E H B
  continue (done a) f s = f a s
  continue (raised e) f s = (raised e, s)
  continue blocked f s = (blocked, s)

  infixl 5 ◌>>=◌ ◌>>◌
  unfoldable pub ◌>>=◌ : Op E H A → (A → Op E H B) → Op E H B
  ◌>>=◌ m f s = let (r, s') = m s in continue r f s'

  abbrev pub ◌>>◌ : Op E H A → Op E H B → Op E H B
  m >> k = m >>= λ _. k

module _ {E H : Type 0} where
  -- `if test { return Err(error) }`
  abbrev pub raise_if : Bool → Error → Op E H (Unit {0})
  raise_if test e s = (if test then raised e else done tt, s)

  -- A count that a call returned, with the buffer that it filled.
  abbrev pub with_buffer : Outcome ℕ → List ℕ → Op E H (ℕ × List ℕ)
  with_buffer (done n) buf s = (done (n, buf), s)
  with_buffer (raised e) buf s = (raised e, s)
  with_buffer blocked buf s = (blocked, s)
