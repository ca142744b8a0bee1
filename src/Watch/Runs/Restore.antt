-- ===== src/Watch/Runs/Restore.antt =====
-- The steps of rust/src/watch.rs that lose the connection, follow a pin configuration or write the
-- target back: they may run in every state that has the connection they use.
use hidpin.Base.{
  ℕ, ◌≡◌, refl, sym, Bool, true, false, not, Option, none, some, List, [], ◌∷◌, subst, ltb, ◌-◌,
}
use hidpin.Error.{Error, Result, ok, err, pin_config_rejected, pin_config_conflict}
use hidpin.Protocol.Config.{PinConfigReport}
use hidpin.Protocol.Pins.{PinConfig, config_eq}
use hidpin.Transport.{Host}
use hidpin.Watch.Connect.{
  outputs_event, scan_later, drop_open, drop_connection, lost_open, lost, wrote, restore_interval,
}
use hidpin.Watch.Connect.Restore.{
  restored, restore_over, restore_to, restore_target, restore_after, restore_soon, follow,
  config_read, config_changed,
}
use hidpin.Watch.Events.{OutputResetCause, driven_outputs, pin_config}
use hidpin.Watch.Levels.{set_config}
use hidpin.Watch.Loop.{Connection, WatchLoop, modify}
use hidpin.Watch.Runs.{
  Extends, Extends-same, Extends-emitted, Runs, Runs_bind, Runs_pre, Runs_pure, Runs_gets,
  Runs_stop, Runs_modify, Runs_set, Runs_emit, Runs_if, Runs_choose, Runs_at,
}
use hidpin.Watch.Runs.Calls.{
  IsLinked, IsSteady, Holds, HoldsLinked, Runs_call, Runs_now, Runs_close,
}

pub IsLinked-some :
    {H : Type 0} (conn : Option (Connection H)) (c : Connection H) → conn ≡ some c → IsLinked conn
IsLinked-some none c e = subst IsLinked (sym e) tt
IsLinked-some (some d) c e = tt

module _ {E H : Type 0} where
  pub Extends-outputs_event :
      (gs : List ℕ) (cause : OutputResetCause) (w : WatchLoop E H)
      → Extends w (outputs_event gs cause w) × ((outputs_event gs cause w).conn ≡ w.conn)
  unfolding outputs_event
  Extends-outputs_event [] cause w = (Extends-same w w refl, refl)
  Extends-outputs_event (g ∷ gs) cause w = (Extends-emitted _ w, refl)

  -- What a change of the state leaves of a property of the connection.
  pub Runs_outputs_event :
      (C : Option (Connection H) → Type 0) (gs : List ℕ) (cause : OutputResetCause)
      → Runs {E = E} (Holds C) (modify (outputs_event gs cause)) (λ u. Holds C)
  Runs_outputs_event C gs cause =
      Runs_modify
        (λ w p. let (x, same) = Extends-outputs_event gs cause w in (x, subst C (sym same) p))

module _ {E H : Type 0} (host : Host E H) {C : Option (Connection H) → Type 0}
    (steady : IsSteady C) where
  Runs_drop_open :
      (conn : Option (Connection H)) → Runs (Holds C) (drop_open host conn) (λ u. Holds C)
  unfolding drop_open
  Runs_drop_open none = Runs_pure (λ w p. p)
  Runs_drop_open (some c) =
      Runs_bind (Runs_set (λ w. refl) (λ w p. steady.dropped))
        (λ u. Runs_close host (Holds C) c.device (λ w e p. p))

  pub Runs_drop_connection : Runs (Holds C) (drop_connection host) (λ u. Holds C)
  unfolding drop_connection
  Runs_drop_connection = Runs_at (λ conn. Runs_pre (λ w p. p.0) (Runs_drop_open conn))

  pub Runs_scan_later : Runs (Holds C) (scan_later host) (λ u. Holds C)
  unfolding scan_later
  Runs_scan_later =
      Runs_bind (Runs_now host (Holds C) (λ w e p. p)) (λ t. Runs_set (λ w. refl) (λ w p. p))

  Runs_lost_open :
      (conn : Option (Connection H)) (error : Error)
      → Runs (Holds C) (lost_open host conn error) (λ u. Holds C)
  unfolding lost_open
  Runs_lost_open none error = Runs_pure (λ w p. p)
  Runs_lost_open (some c) error =
      Runs_bind Runs_drop_connection (λ u. Runs_bind (Runs_emit (λ w p. p)) (λ u'. Runs_scan_later))

  pub Runs_lost : (error : Error) → Runs (Holds C) (lost host error) (λ u. Holds C)
  unfolding lost
  Runs_lost error = Runs_at (λ conn. Runs_pre (λ w p. p.0) (Runs_lost_open conn error))

  IsSteady-awaiting :
      (conn : Option (Connection H))
      → C conn
      → C (elim conn [ none ↦ none | some c ↦ some (record c { awaiting_config = true }) ])
  IsSteady-awaiting none p = p
  IsSteady-awaiting (some c) p = steady.kept c _ refl p

  pub Runs_wrote :
      (found config : PinConfig) → Runs (Holds C) (wrote host found config) (λ u. Holds C)
  unfolding wrote set_config
  Runs_wrote found config = Runs_bind (Runs_set (λ w. refl) (λ w p. p)) (λ u.
      Runs_bind (Runs_set (λ w. refl) (λ w p. IsSteady-awaiting w.conn p)) (λ u'.
        Runs_bind (Runs_now host (Holds C) (λ w e p. p)) (λ t.
          Runs_bind (Runs_set (λ w. refl) (λ w p. p))
            (λ u''. Runs_outputs_event C (driven_outputs found config) pin_config))))

  module _ (rounds : ℕ) where
    Runs_restored :
        (found target : PinConfig) (r : Result PinConfigReport)
        → Runs (Holds C) (restored host rounds found target r) (λ u. Holds C)
    unfolding restored
    Runs_restored found target (ok r) = Runs_bind (Runs_set (λ w. refl) (λ w p. p)) (λ u.
        Runs_bind Runs_gets
          (λ count. Runs_bind (Runs_emit (λ w p. p.0)) (λ u'. Runs_wrote found target)))
    Runs_restored found target (err (pin_config_rejected result gpio here)) = Runs_stop
    Runs_restored found target (err (pin_config_conflict expected seen)) =
        Runs_bind (Runs_now host (Holds C) (λ w e p. p)) (λ t. Runs_set (λ w. refl) (λ w p. p))
    Runs_restored found target (err error) = Runs_lost error

    Runs_restore_over :
        (target : PinConfig) (r : Result PinConfigReport)
        → Runs (HoldsLinked C) (restore_over host rounds target r) (λ u. Holds C)
    unfolding restore_over set_config
    Runs_restore_over target (err error) = Runs_pre (λ w p. p.0) (Runs_lost error)
    Runs_restore_over target (ok report) = Runs_bind (Runs_set (λ w. refl) (λ w p. p)) (λ u.
        Runs_if (config_eq report.config target) (Runs_pure (λ w p. p.0)) (
          Runs_bind (Runs_call steady _)
            (λ written. Runs_pre (λ w p. p.0) (Runs_restored report.config target written))))

    Runs_restore_to :
        (target : Option PinConfig) (conn : Option (Connection H))
        → Runs
            (λ w. Holds C w × (w.conn ≡ conn))
            (restore_to host rounds target conn)
            (λ u. Holds C)
    unfolding restore_to
    Runs_restore_to none conn = Runs_pure (λ w p. p.0)
    Runs_restore_to (some target) none = Runs_pure (λ w p. p.0)
    Runs_restore_to (some target) (some c) =
        Runs_pre (λ w p. (p.0, IsLinked-some w.conn c p.1))
          (Runs_bind (Runs_now host (HoldsLinked C) (λ w e p. p)) (λ t.
            Runs_bind (Runs_set (λ w. refl) (λ w p. p))
              (λ u. Runs_bind (Runs_call steady _) (λ read. Runs_restore_over target read))))

    pub Runs_restore_target : Runs (Holds C) (restore_target host rounds) (λ u. Holds C)
    unfolding restore_target
    Runs_restore_target = record { run = λ v p. (Runs_restore_to v.target v.conn).run v (p, refl) }

    Runs_restore_after :
        (delay : ℕ) → Runs (Holds C) (restore_after host rounds delay) (λ u. Holds C)
    unfolding restore_after
    Runs_restore_after delay =
        Runs_bind (Runs_now host (Holds C) (λ w e p. p)) (λ t. Runs_set (λ w. refl) (λ w p. p))

    Runs_restore_soon :
        (last : Option ℕ) → Runs (Holds C) (restore_soon host rounds last) (λ u. Holds C)
    unfolding restore_soon
    Runs_restore_soon none = Runs_restore_target
    Runs_restore_soon (some last) =
        Runs_bind (Runs_now host (Holds C) (λ w e p. p)) (λ t.
          Runs_if (ltb (t - last) restore_interval) (Runs_restore_after _) Runs_restore_target)

    Runs_follow :
        (changed : Bool) (config : PinConfig) (target : Option PinConfig)
        → Runs (Holds C) (follow host rounds changed config target) (λ u. Holds C)
    unfolding follow
    Runs_follow true config none = Runs_emit (λ w p. p)
    Runs_follow false config none = Runs_pure (λ w p. p)
    Runs_follow changed config (some target) =
        Runs_choose (config_eq config target) (Runs_pure (λ w p. p))
          (Runs_at (λ last. Runs_pre (λ w p. p.0) (Runs_restore_soon last)))

    Runs_config_read :
        (r : Result PinConfigReport) → Runs (Holds C) (config_read host rounds r) (λ u. Holds C)
    unfolding config_read set_config
    Runs_config_read (err error) = Runs_lost error
    Runs_config_read (ok report) = Runs_bind Runs_gets (λ old.
        Runs_bind (Runs_set (λ w. refl) (λ w p. p.0)) (λ u. Runs_bind Runs_gets (λ target.
          Runs_pre (λ w p. p.0)
            (Runs_follow (not (config_eq report.config old)) report.config target))))

    pub Runs_config_changed : Runs (HoldsLinked C) (config_changed host rounds) (λ u. Holds C)
    unfolding config_changed
    Runs_config_changed =
        Runs_bind (Runs_call steady _) (λ read. Runs_pre (λ w p. p.0) (Runs_config_read read))
