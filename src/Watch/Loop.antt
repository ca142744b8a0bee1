-- ===== src/Watch/Loop.antt =====
-- `WatchLoop` of rust/src/watch.rs: its state, and the actions on it. An action takes the state
-- and gives it back with a verdict: it goes on, stops the watcher (`Fatal`), waits for ever inside a
-- call, or panics (an `expect` that fails,
-- or a slice beyond a buffer).
use hidpin.Base.{ℕ, Bool, Option, none, some, List, [], ◌∷◌, ◌++◌}
use hidpin.Base.Maps.{Map}
use hidpin.Base.Text.{Text}
use hidpin.Device.Monad.{Device, Op}
use hidpin.Error.{Error, Result, ok, err}
use hidpin.Protocol.Info.{DeviceInfo}
use hidpin.Protocol.Pins.{PinConfig}
use hidpin.Transport.{Host, Outcome, done, raised, blocked}
use hidpin.Watch.Clock.{DeviceClock}
use hidpin.Watch.Events.{Event}

-- `struct Connection`
pub record Connection (H : Type 0) : Type 0 where
  pub device : Device H
  pub clock : DeviceClock
  pub last_seq : Option ℕ
  pub snapshot_seq : Option ℕ
  pub awaiting_config : Bool

-- `struct WatchLoop` without what it shares with the application, and the world behind its bus.
pub record WatchLoop (E H : Type 0) : Type 0 where
  pub serial : Option Text
  pub target : Option PinConfig
  pub active_low : Map Bool
  pub interval : ℕ
  pub pending : List Event
  pub info : Option DeviceInfo
  pub config : PinConfig
  pub known : Map Bool
  pub ever_connected : Bool
  pub conn : Option (Connection H)
  pub failure : Text
  pub failures : ℕ
  pub restore_count : ℕ
  pub last_restore : Option ℕ
  pub scan_at : Option ℕ
  pub restore_at : Option ℕ
  pub settle_at : Option ℕ
  pub env : E

pub data Verdict (A : Type 0) : Type 0 where
  going : A → Verdict A
  fatal : Error → Verdict A
  stuck : Verdict A
  panicked : Verdict A

abbrev pub Act : Type 0 → Type 0 → Type 0 → Type 0
Act E H A = WatchLoop E H → Verdict A × WatchLoop E H

module _ {E H A : Type 0} where
  abbrev pub pure : A → Act E H A
  pure a w = (going a, w)

  abbrev pub stop : Error → Act E H A
  stop e w = (fatal e, w)

  abbrev pub panic : Act E H A
  panic w = (panicked, w)

  abbrev pub gets : (WatchLoop E H → A) → Act E H A
  gets f w = (going (f w), w)

module _ {E H A B : Type 0} where
  abbrev pub proceed : Verdict A → (A → Act E H B) → Act E H B
  proceed (going a) f w = f a w
  proceed (fatal e) f w = (fatal e, w)
  proceed stuck f w = (stuck, w)
  proceed panicked f w = (panicked, w)

  infixl 5 ◌>>=◌ ◌>>◌
  unfoldable pub ◌>>=◌ : Act E H A → (A → Act E H B) → Act E H B
  ◌>>=◌ m f w = let (r, w') = m w in proceed r f w'

  abbrev pub ◌>>◌ : Act E H A → Act E H B → Act E H B
  m >> k = m >>= λ _. k

module _ {E H : Type 0} where
  abbrev pub modify : (WatchLoop E H → WatchLoop E H) → Act E H (Unit {0})
  modify f w = (going tt, f w)

  abbrev pub emitted : Event → WatchLoop E H → WatchLoop E H
  emitted event w = record w { pending = w.pending ++ (event ∷ []) }

  -- `self.emit(event)`
  abbrev pub emit : Event → Act E H (Unit {0})
  emit event = modify (emitted event)

  abbrev pub skip : Act E H (Unit {0})
  skip = pure tt

  -- An action that needs the connection: `expect("connected")`.
  abbrev pub with_conn : {A : Type 0} → (Connection H → Act E H A) → Act E H A
  with_conn f w = elim w.conn [ none ↦ (panicked, w) | some c ↦ f c w ]

  abbrev pub set_conn : Connection H → Act E H (Unit {0})
  set_conn c = modify (λ w. record w { conn = some c })

-- What the outcome of a device operation is to the loop.
abbrev pub as_result : {A : Type 0} → Outcome A → Verdict (Result A)
as_result (done a) = going (ok a)
as_result (raised e) = going (err e)
as_result blocked = stuck

abbrev pub paired : {A B : Type 0} → Verdict A → B → Verdict (A × B)
paired (going r) d = going (r, d)
paired (fatal e) d = fatal e
paired stuck d = stuck
paired panicked d = panicked

module _ {E H A : Type 0} where
  -- An operation of the connected device.
  unfoldable pub call : Op E H A → Act E H (Result A)
  call op = with_conn λ c w.
      let (r, s) = op (record { device = c.device; env = w.env }) in
      (as_result r, record w { conn = some (record c { device = s.device }); env = s.env })

  -- An operation of a device that is not connected to the loop.
  unfoldable pub in_device : Device H → Op E H A → Act E H (Result A × Device H)
  in_device d op w =
      let (r, s) = op (record { device = d; env = w.env }) in
      (paired (as_result r) s.device, record w { env = s.env })

module _ {E H : Type 0} (host : Host E H) where
  -- `Instant::now()`
  unfoldable pub now : Act E H ℕ
  now w = let (t, e) = host.now w.env in (going t, record w { env = e })

  unfoldable pub wall_now : Act E H ℕ
  wall_now w = let (t, e) = host.wall_now w.env in (going t, record w { env = e })

  -- A device is dropped.
  unfoldable pub close : Device H → Act E H (Unit {0})
  close d = modify (λ w. record w { env = host.close d.transport w.env })
