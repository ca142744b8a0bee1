-- ===== src/Watch/Runs/Calm.antt =====
-- The requests of rust/src/watch.rs never stop the watcher: their errors go to the caller.
use hidpin.Base.{ℕ, ◌≡◌, refl, Option, none, some, Bool, Bool-cases, inl, inr, if◌then◌else◌}
use hidpin.Device.Monad.{Op}
use hidpin.Error.{Result, ok, err, pin_config_rejected, pin_config_conflict}
use hidpin.Protocol.Config.{PinConfigReport}
use hidpin.Protocol.Pins.{PinConfig, config_eq}
use hidpin.Transport.{Host, Outcome, done, raised, blocked}
use hidpin.Watch.Connect.{wrote}
use hidpin.Watch.Connect.Retarget.{
  check_target, target_written, target_over, write_target, replace_target, set_target,
}
use hidpin.Watch.Loop.{
  Connection, WatchLoop, Verdict, going, fatal, stuck, panicked, Act, pure, proceed, modify,
  as_result, call, now, ◌>>=◌,
}

-- The verdict does not stop the watcher.
abbrev pub IsCalm : {A : Type 0} → Verdict A → Type 0
IsCalm (going a) = Unit
IsCalm (fatal e) = ⊥
IsCalm stuck = Unit
IsCalm panicked = Unit

IsCalm-as_result : {A : Type 0} (r : Outcome A) → IsCalm (as_result r)
IsCalm-as_result (done a) = tt
IsCalm-as_result (raised e) = tt
IsCalm-as_result blocked = tt

module _ {E H : Type 0} where
  pub record Calm {A : Type 0} (m : Act E H A) : Type 0 where
    pub calm : (v : WatchLoop E H) → IsCalm (m v).0

  IsCalm-proceed :
      {A B : Type 0} (f : A → Act E H B)
      → ((a : A) → Calm (f a))
      → (r : Verdict A) (w : WatchLoop E H) → IsCalm r
      → IsCalm (proceed r f w).0
  IsCalm-proceed f next (going a) w x = (next a).calm w
  IsCalm-proceed f next (fatal e) w x = x
  IsCalm-proceed f next stuck w x = x
  IsCalm-proceed f next panicked w x = x

  Calm-bind :
      {A B : Type 0} {m : Act E H A} {f : A → Act E H B}
      → Calm m
      → ((a : A) → Calm (f a))
      → Calm (m >>= f)
  unfolding ◌>>=◌
  Calm-bind {m} {f} first next = record {
    calm = λ v. IsCalm-proceed f next (m v).0 (m v).1 (first.calm v);
  }

  Calm-pure : {A : Type 0} {a : A} → Calm (pure a)
  Calm-pure = record { calm = λ v. tt }

  Calm-modify : {f : WatchLoop E H → WatchLoop E H} → Calm (modify f)
  Calm-modify = record { calm = λ v. tt }

  Calm-if :
      {A : Type 0} {m n : Act E H A} (test : Bool) → Calm m → Calm n → Calm (if test then m else n)
  Calm-if test x y = elim (Bool-cases test) [ inl e ↦ rw e x | inr e ↦ rw e y ]

  IsCalm-call :
      {A : Type 0} (op : Op E H A) (v : WatchLoop E H) (conn : Option (Connection H))
      → v.conn ≡ conn
      → IsCalm (call op v).0
  unfolding call
  IsCalm-call op v none e = rw e tt
  IsCalm-call op v (some c) e = rw e (IsCalm-as_result _)

  pub Calm-call : {A : Type 0} (op : Op E H A) → Calm (call op)
  Calm-call op = record { calm = λ v. IsCalm-call op v v.conn refl }

module _ {E H : Type 0} (host : Host E H) (rounds : ℕ) where
  Calm-now : Calm (now host)
  unfolding now
  Calm-now = record { calm = λ v. tt }

  Calm-wrote : (found config : PinConfig) → Calm (wrote host found config)
  unfolding wrote
  Calm-wrote found config = Calm-bind Calm-modify (λ u.
      Calm-bind Calm-modify
        (λ u'. Calm-bind Calm-now (λ t. Calm-bind Calm-modify (λ u''. Calm-modify))))

  Calm-target_written :
      (previous : Option PinConfig) (found config : PinConfig) (r : Result PinConfigReport)
      → Calm (target_written host rounds previous found config r)
  unfolding target_written
  Calm-target_written previous found config (ok r) =
      Calm-bind (Calm-wrote found config) (λ u. Calm-pure)
  Calm-target_written previous found config (err (pin_config_rejected result gpio here)) =
      Calm-bind Calm-modify (λ u. Calm-pure)
  Calm-target_written previous found config (err (pin_config_conflict expected seen)) =
      Calm-bind Calm-now (λ t. Calm-bind Calm-modify (λ u. Calm-pure))
  Calm-target_written previous found config (err error) = Calm-pure

  Calm-target_over :
      (previous : Option PinConfig) (config : PinConfig) (r : Result PinConfigReport)
      → Calm (target_over host rounds previous config r)
  unfolding target_over
  Calm-target_over previous config (err error) = Calm-pure
  Calm-target_over previous config (ok report) = Calm-bind Calm-modify (λ u.
      Calm-if (config_eq report.config config) Calm-pure (
        Calm-bind (Calm-call _)
          (λ written. Calm-target_written previous report.config config written)))

  Calm-write_target :
      (previous : Option PinConfig) (config : PinConfig) (conn : Option (Connection H))
      → Calm (write_target host rounds previous config conn)
  unfolding write_target
  Calm-write_target previous config none = Calm-pure
  Calm-write_target previous config (some c) =
      Calm-bind Calm-modify
        (λ u. Calm-bind (Calm-call _) (λ read. Calm-target_over previous config read))

  Calm-replace_target :
      (config : PinConfig) (r : Result (Unit {0})) → Calm (replace_target host rounds config r)
  unfolding replace_target
  Calm-replace_target config (err error) = Calm-pure
  Calm-replace_target config (ok u) = record {
    calm = λ v. (Calm-write_target v.target config v.conn).calm (record v { target = some config });
  }

  pub Calm-set_target : (config : PinConfig) → Calm (set_target host rounds config)
  unfolding set_target
  Calm-set_target config = record {
    calm = λ v. (Calm-replace_target config (check_target config v.info)).calm v;
  }
