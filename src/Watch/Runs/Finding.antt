-- ===== src/Watch/Runs/Finding.antt =====
-- `try_connect` of rust/src/watch.rs runs in every state.
use hidpin.Base.{
  ◌%◌, ◌^◌, ℕ, ◌≡◌, ◌==◌, ◌+◌, if◌then◌else◌, refl, Bool, Bool-cases, inl, inr, true, false, Option,
  none, some, List, [], ◌∷◌, ◌&&◌, ltb, length, filter,
}
use hidpin.Base.Text.{Text, text_eq}
use hidpin.Error.{Error, Result, ok, err, pin_config_rejected, unsupported_platform}
use hidpin.Error.Display.{display}
use hidpin.Device.Monad.{Device}
use hidpin.Protocol.Config.{PinConfigReport}
use hidpin.Protocol.Info.{DeviceInfo}
use hidpin.Protocol.Pins.{PinConfig, config_eq, mask_to_gpios, outputs_mask}
use hidpin.Transport.{Host, DeviceEntry}
use hidpin.Watch.Connect.{failed, reset_failures}
use hidpin.Watch.Connect.Finding.{
  wanted, reset_by_connecting, now_connected, give_up, open_bus, start_device, settle_or_ask,
  finish, target_sent, reconcile, config_found, informed, opened, connect, attempt_failed,
  attempted, connect_first, choose, found_devices, list_devices, try_connect,
}
use hidpin.Watch.Events.{Event, connect_failed, reconnect, pin_config, driven_outputs}
use hidpin.Watch.Levels.{set_config}
use hidpin.Watch.Loop.{WatchLoop, Act, pure, emitted, modify}
use hidpin.Watch.Runs.{
  Extends, Extends-same, Extends-trans, Extends-emitted, Ends, Runs, Runs_bind, Runs_pre, Runs_pure,
  Runs_stop, Runs_modify, Runs_set, Runs_if, Runs_at,
}
use hidpin.Watch.Runs.Calls.{
  AnyConn, AnyConn-IsSteady, Holds, HoldsLinked, Runs_in_device, Runs_now, Runs_close,
}
use hidpin.Watch.Runs.Report.{Runs_snapshot}
use hidpin.Watch.Runs.Restore.{IsLinked-some, Extends-outputs_event, Runs_scan_later}

module _ {E H : Type 0} where
  -- An action that may run in every state, whatever comes of it.
  abbrev pub Safe : {A : Type 0} → Act E H A → Type 0
  Safe m = Runs (Holds AnyConn) m (λ a. Holds AnyConn)

  pub Safe-pure : {A : Type 0} {a : A} → Safe {A = A} (pure a)
  Safe-pure = Runs_pure (λ w p. p)

  Extends-when :
      (test : Bool) (event : Event) (v w : WatchLoop E H)
      → Extends v w
      → Extends v (if test then emitted event w else w)
  Extends-when true event v w x = Extends-trans x (Extends-emitted event w)
  Extends-when false event v w x = x

  Extends-failed : (error : Error) (w : WatchLoop E H) → Extends w (failed error w)
  unfolding failed
  Extends-failed error w =
      let count = if text_eq (display error) w.failure then (w.failures + 1) % 2 ^ 32 else 1 in
      Extends-when (count == 2) (connect_failed error) w
        (record w { failure = display error; failures = count }) (Extends-same w _ refl)

  Extends-reset_by_connecting :
      (reconnected : Bool) (found : PinConfig) (driven : List ℕ) (w : WatchLoop E H)
      → Extends w (reset_by_connecting reconnected found driven w)
        × ((reset_by_connecting reconnected found driven w).conn ≡ w.conn)
  unfolding reset_by_connecting
  Extends-reset_by_connecting reconnected found driven w =
      elim (Bool-cases (reconnected && ltb 0 (length (mask_to_gpios (outputs_mask found))))) [
        | inl e ↦ rw e (Extends-outputs_event (mask_to_gpios (outputs_mask found)) reconnect w)
        | inr e ↦ rw e (Extends-outputs_event driven pin_config w)
      ]

  Runs_now_connected :
      (entry : DeviceEntry) (d : Device H) (i : DeviceInfo) (found : PinConfig) (driven : List ℕ)
      (awaiting : Bool)
      → Runs {E = E}
          (Holds AnyConn)
          (modify (now_connected entry d i found driven awaiting))
          (λ u. HoldsLinked AnyConn)
  unfolding now_connected reset_failures set_config
  Runs_now_connected entry d i found driven awaiting = Runs_modify (λ w p.
      let (x, same) = Extends-reset_by_connecting w.ever_connected found driven _ in
      (
        Extends-trans (Extends-trans (Extends-same w _ refl) (Extends-emitted _ _)) x,
        (tt, IsLinked-some _ _ same),
      ))

module _ {E H : Type 0} (host : Host E H) where
  Safe-give_up : (d : Device H) (e : Error) → Safe (give_up host d e)
  unfolding give_up
  Safe-give_up d e = Runs_bind (Runs_close host (Holds AnyConn) d (λ w e p. p)) (λ u. Safe-pure)

  Safe-open_bus : (entry : DeviceEntry) → Safe (open_bus host entry)
  unfolding open_bus Ends
  Safe-open_bus entry = record { run = λ v p. (Extends-same v _ refl, tt) }

  Safe-start_device : (handle : H) (serial : Text) → Safe (start_device host handle serial)
  unfolding start_device Ends
  Safe-start_device handle serial = record { run = λ v p. (Extends-same v _ refl, tt) }

  Safe-list_devices : (rounds : ℕ) → Safe (list_devices host rounds)
  unfolding list_devices Ends
  Safe-list_devices rounds = record { run = λ v p. (Extends-same v _ refl, tt) }

module _ {E H : Type 0} (host : Host E H) (rounds : ℕ) where
  Runs_settle_or_ask :
      (awaiting : Bool)
      → Runs (HoldsLinked AnyConn) (settle_or_ask host rounds awaiting) (λ u. Holds AnyConn)
  unfolding settle_or_ask
  Runs_settle_or_ask true =
      Runs_bind (Runs_now host (HoldsLinked AnyConn) (λ w e p. p))
        (λ t. Runs_set (λ w. refl) (λ w p. tt))
  Runs_settle_or_ask false = Runs_snapshot host rounds

  Safe-finish :
      (entry : DeviceEntry) (d : Device H) (i : DeviceInfo) (found : PinConfig) (driven : List ℕ)
      (awaiting : Bool)
      → Safe (finish host rounds entry d i found driven awaiting)
  unfolding finish
  Safe-finish entry d i found driven awaiting =
      Runs_bind (Runs_now_connected entry d i found driven awaiting)
        (λ u. Runs_bind (Runs_settle_or_ask awaiting) (λ u'. Safe-pure))

  Safe-target_sent :
      (entry : DeviceEntry) (i : DeviceInfo) (found target : PinConfig) (r : Result PinConfigReport)
      (d : Device H)
      → Safe (target_sent host rounds entry i found target (r, d))
  unfolding target_sent
  Safe-target_sent entry i found target (ok r) d =
      Safe-finish entry d i target (driven_outputs found target) true
  Safe-target_sent entry i found target (err (pin_config_rejected result gpio here)) d =
      Runs_bind (Runs_close host (Holds AnyConn) d (λ w e p. p)) (λ u. Runs_stop)
  Safe-target_sent entry i found target (err error) d = Safe-give_up host d error

  Safe-reconcile :
      (entry : DeviceEntry) (i : DeviceInfo) (found : PinConfig) (d : Device H)
      (target : Option PinConfig)
      → Safe (reconcile host rounds entry i found d target)
  unfolding reconcile
  Safe-reconcile entry i found d none = Safe-finish entry d i found [] false
  Safe-reconcile entry i found d (some target) =
      Runs_if (config_eq found target) (Safe-finish entry d i found [] false) (
        Runs_bind (Runs_in_device AnyConn d _)
          (λ (r, d'). Safe-target_sent entry i found target r d'))

  Safe-config_found :
      (entry : DeviceEntry) (i : DeviceInfo) (r : Result PinConfigReport) (d : Device H)
      → Safe (config_found host rounds entry i (r, d))
  unfolding config_found
  Safe-config_found entry i (err error) d = Safe-give_up host d error
  Safe-config_found entry i (ok report) d =
      Runs_at (λ target. Runs_pre (λ w p. tt) (Safe-reconcile entry i report.config d target))

  Safe-informed :
      (entry : DeviceEntry) (r : Result DeviceInfo) (d : Device H)
      → Safe (informed host rounds entry (r, d))
  unfolding informed
  Safe-informed entry (err error) d = Safe-give_up host d error
  Safe-informed entry (ok i) d =
      Runs_bind (Runs_set (λ w. refl) (λ w p. tt))
        (λ u. Runs_bind (Runs_in_device AnyConn d _) (λ (r, d'). Safe-config_found entry i r d'))

  Safe-opened : (entry : DeviceEntry) (r : Result H) → Safe (opened host rounds entry r)
  unfolding opened
  Safe-opened entry (err error) = Runs_pure (λ w p. tt)
  Safe-opened entry (ok handle) =
      Runs_bind (Safe-start_device host handle entry.serial)
        (λ d. Runs_bind (Runs_in_device AnyConn d _) (λ (r, d'). Safe-informed entry r d'))

  Safe-connect : (entry : DeviceEntry) → Safe (connect host rounds entry)
  unfolding connect
  Safe-connect entry = Runs_bind (Safe-open_bus host entry) (λ handle. Safe-opened entry handle)

  Safe-attempt_failed : (error : Error) → Safe (attempt_failed host rounds error)
  unfolding attempt_failed
  Safe-attempt_failed error =
      Runs_bind (Runs_modify (λ w p. (Extends-failed error w, tt)))
        (λ u. Runs_scan_later host (AnyConn-IsSteady H))

  Safe-attempted : (r : Result (Unit {0})) → Safe (attempted host rounds r)
  unfolding attempted
  Safe-attempted (ok u) = Runs_pure (λ w p. tt)
  Safe-attempted (err error) = Safe-attempt_failed error

  Safe-connect_first : (entry : DeviceEntry) → Safe (connect_first host rounds entry)
  unfolding connect_first
  Safe-connect_first entry =
      Runs_bind (Runs_set (λ w. refl) (λ w p. tt))
        (λ u. Runs_bind (Safe-connect entry) (λ r. Safe-attempted r))

  Safe-choose :
      (serial : Option Text) (entries : List DeviceEntry) → Safe (choose host rounds serial entries)
  unfolding choose reset_failures
  Safe-choose none [] =
      Runs_bind (Runs_set (λ w. refl) (λ w p. tt)) (λ u. Runs_scan_later host (AnyConn-IsSteady H))
  Safe-choose (some serial) [] =
      Runs_bind (Runs_set (λ w. refl) (λ w p. tt)) (λ u. Runs_scan_later host (AnyConn-IsSteady H))
  Safe-choose (some serial) (entry ∷ rest) = Safe-connect_first entry
  Safe-choose none (entry ∷ []) = Safe-connect_first entry
  Safe-choose none (entry ∷ (e ∷ rest)) = Runs_stop

  Safe-found_devices : (r : Result (List DeviceEntry)) → Safe (found_devices host rounds r)
  unfolding found_devices
  Safe-found_devices (err unsupported_platform) = Runs_stop
  Safe-found_devices (err error) = Safe-attempt_failed error
  Safe-found_devices (ok entries) =
      Runs_at {g = λ w. w.serial}
        (λ serial. Runs_pre (λ w p. tt) (Safe-choose serial (filter (wanted serial) entries)))

  pub Safe-try_connect : Safe (try_connect host rounds)
  unfolding try_connect
  Safe-try_connect = Runs_bind (Safe-list_devices host rounds) (λ r. Safe-found_devices r)
