-- ===== src/Watch/Runs/Retarget.antt =====
-- `set_target` of rust/src/watch.rs runs in every state.
use hidpin.Base.{ℕ, ◌≡◌, refl, Option, none, some}
use hidpin.Error.{Result, ok, err, pin_config_rejected, pin_config_conflict}
use hidpin.Protocol.Config.{PinConfigReport}
use hidpin.Protocol.Pins.{PinConfig, config_eq}
use hidpin.Transport.{Host}
use hidpin.Watch.Connect.Retarget.{
  check_target, target_written, target_over, write_target, replace_target, set_target,
}
use hidpin.Watch.Levels.{set_config}
use hidpin.Watch.Loop.{Connection}
use hidpin.Watch.Runs.{
  Runs, Runs_bind, Runs_pre, Runs_pure, Runs_set, Runs_if, Runs_at, Ends-later, Extends-same,
}
use hidpin.Watch.Runs.Calls.{AnyConn, AnyConn-IsSteady, Holds, HoldsLinked, Runs_call, Runs_now}
use hidpin.Watch.Runs.Finding.{Safe, Safe-pure}
use hidpin.Watch.Runs.Restore.{IsLinked-some, Runs_wrote}

module _ {E H : Type 0} (host : Host E H) (rounds : ℕ) where
  Safe-target_written :
      (previous : Option PinConfig) (found config : PinConfig) (r : Result PinConfigReport)
      → Safe (target_written host rounds previous found config r)
  unfolding target_written
  Safe-target_written previous found config (ok r) =
      Runs_bind (Runs_wrote host (AnyConn-IsSteady H) found config) (λ u. Safe-pure)
  Safe-target_written previous found config (err (pin_config_rejected result gpio here)) =
      Runs_bind (Runs_set (λ w. refl) (λ w p. tt)) (λ u. Safe-pure)
  Safe-target_written previous found config (err (pin_config_conflict expected seen)) =
      Runs_bind (Runs_now host (Holds AnyConn) (λ w e p. p))
        (λ t. Runs_bind (Runs_set (λ w. refl) (λ w p. tt)) (λ u. Safe-pure))
  Safe-target_written previous found config (err error) = Runs_pure (λ w p. tt)

  Runs_target_over :
      (previous : Option PinConfig) (config : PinConfig) (r : Result PinConfigReport)
      → Runs (HoldsLinked AnyConn) (target_over host rounds previous config r) (λ a. Holds AnyConn)
  unfolding target_over set_config
  Runs_target_over previous config (err error) = Runs_pure (λ w p. tt)
  Runs_target_over previous config (ok report) = Runs_bind (Runs_set (λ w. refl) (λ w p. p)) (λ u.
      Runs_if (config_eq report.config config) (Runs_pure (λ w p. tt)) (
        Runs_bind (Runs_call (AnyConn-IsSteady H) _) (λ written.
          Runs_pre (λ w p. tt) (Safe-target_written previous report.config config written))))

  Runs_write_target :
      (previous : Option PinConfig) (config : PinConfig) (conn : Option (Connection H))
      → Runs
          (λ w. w.conn ≡ conn)
          (write_target host rounds previous config conn)
          (λ a. Holds AnyConn)
  unfolding write_target
  Runs_write_target previous config none = Runs_pure (λ w p. tt)
  Runs_write_target previous config (some c) =
      Runs_pre (λ w p. (tt, IsLinked-some w.conn c p))
        (Runs_bind (Runs_set (λ w. refl) (λ w p. p)) (λ u.
          Runs_bind (Runs_call (AnyConn-IsSteady H) _)
            (λ read. Runs_target_over previous config read)))

  Safe-replace_target :
      (config : PinConfig) (r : Result (Unit {0})) → Safe (replace_target host rounds config r)
  unfolding replace_target
  Safe-replace_target config (err error) = Runs_pure (λ w p. tt)
  Safe-replace_target config (ok u) = record {
    run = λ v p.
        let v' = record v { target = some config } in
        Ends-later v v' _ _ _ (Extends-same v v' refl)
          ((Runs_write_target v.target config v.conn).run v' refl);
  }

  pub Safe-set_target : (config : PinConfig) → Safe (set_target host rounds config)
  unfolding set_target
  Safe-set_target config =
      Runs_at (λ i. Runs_pre (λ w p. tt) (Safe-replace_target config (check_target config i)))
