-- ===== src/Watch/Runs/Calls.antt =====
-- Actions of `WatchLoop` (rust/src/watch.rs) that call the device, its transport or the clocks: what
-- they keep of the connection.
use hidpin.Base.{◌≡◌, refl, Option, none, some, subst}
use hidpin.Device.Monad.{Device, Session, Op}
use hidpin.Error.{Result, ok, err}
use hidpin.Transport.{Host, Outcome, done, raised, blocked}
use hidpin.Watch.Clock.{Sample}
use hidpin.Watch.Loop.{
  Connection, WatchLoop, Verdict, panicked, Act, with_conn, as_result, paired, call, in_device, now,
  wall_now, close,
}
use hidpin.Watch.Runs.{Extends, Extends-same, Ends, Runs, Runs_set}

-- There is a connection.
abbrev pub IsLinked : {H : Type 0} → Option (Connection H) → Type 0
IsLinked none = ⊥
IsLinked (some c) = Unit

-- The clock has a sample.
abbrev pub HasSample : Option Sample → Type 0
HasSample none = ⊥
HasSample (some sample) = Unit

-- There is no connection, or its clock has a sample.
abbrev pub IsTimed : {H : Type 0} → Option (Connection H) → Type 0
IsTimed none = Unit
IsTimed (some c) = HasSample c.clock.cur

-- A property of the connection that no connection has, and that is about the clock only.
pub record IsSteady {H : Type 0} (C : Option (Connection H) → Type 0) : Type 0 where
  pub dropped : C none
  pub kept : (c d : Connection H) → d.clock ≡ c.clock → C (some c) → C (some d)

abbrev pub AnyConn : {H : Type 0} → Option (Connection H) → Type 0
AnyConn conn = Unit

pub AnyConn-IsSteady : (H : Type 0) → IsSteady (AnyConn {H = H})
AnyConn-IsSteady H = record { dropped = tt; kept = λ c d same p. tt }

pub IsTimed-IsSteady : (H : Type 0) → IsSteady (IsTimed {H = H})
IsTimed-IsSteady H = record { dropped = tt; kept = λ c d same p. rw same p }

-- What is known of the result of an operation that returned.
abbrev pub HasResult : {A : Type 0} → (Result A → Type 0) → Outcome A → Type 0
HasResult R (done a) = R (ok a)
HasResult R (raised e) = R (err e)
HasResult R blocked = Unit

module _ {E H : Type 0} where
  Ends-result :
      {A : Type 0} (v w : WatchLoop E H) (Q : Result A → WatchLoop E H → Type 0) (r : Outcome A)
      → Extends v w
      → ((a : Result A) → Q a w)
      → Ends v Q (as_result r) w
  unfolding Ends
  Ends-result v w Q (done a) x q = (x, q _)
  Ends-result v w Q (raised e) x q = (x, q _)
  Ends-result v w Q blocked x q = x

  Ends-paired :
      {A B : Type 0} (v w : WatchLoop E H) (Q : Result A × B → WatchLoop E H → Type 0)
      (r : Outcome A) (b : B)
      → Extends v w
      → ((a : Result A × B) → Q a w)
      → Ends v Q (paired (as_result r) b) w
  unfolding Ends
  Ends-paired v w Q (done a) b x q = (x, q _)
  Ends-paired v w Q (raised e) b x q = (x, q _)
  Ends-paired v w Q blocked b x q = x

  Ends-with_conn :
      {A : Type 0} (f : Connection H → Act E H A) (Q : A → WatchLoop E H → Type 0)
      (v : WatchLoop E H) (o : Option (Connection H))
      → IsLinked o
      → ((c : Connection H) → o ≡ some c → Ends v Q (f c v).0 (f c v).1)
      → let (r, w) = elim o as (λ _. Verdict A × WatchLoop E H) [
        | none ↦ (panicked, v)
        | some c ↦ f c v
      ] in
        Ends v Q r w
  Ends-with_conn f Q v none linked each = absurd linked
  Ends-with_conn f Q v (some c) linked each = each c refl

  pub Runs_with_conn :
      {A : Type 0} {P : WatchLoop E H → Type 0} {f : Connection H → Act E H A}
      {Q : A → WatchLoop E H → Type 0}
      → ((w : WatchLoop E H) → P w → IsLinked w.conn)
      → ((c : Connection H) → Runs (λ w. P w × (w.conn ≡ some c)) (f c) Q)
      → Runs P (with_conn f) Q
  Runs_with_conn {f} {Q} linked each = record {
    run = λ v p. Ends-with_conn f Q v v.conn (linked v p) (λ c e. (each c).run v (p, e));
  }

  -- What `C` says of the connection, and that there is one.
  abbrev pub Holds : (Option (Connection H) → Type 0) → WatchLoop E H → Type 0
  Holds C w = C w.conn

  abbrev pub HoldsLinked : (Option (Connection H) → Type 0) → WatchLoop E H → Type 0
  HoldsLinked C w = C w.conn × IsLinked w.conn

  Ends-known :
      {A : Type 0} (v w : WatchLoop E H) (Q : Result A → WatchLoop E H → Type 0)
      (R : Result A → Type 0) (r : Outcome A)
      → Extends v w
      → HasResult R r
      → ((a : Result A) → R a → Q a w)
      → Ends v Q (as_result r) w
  unfolding Ends
  Ends-known v w Q R (done a) x known q = (x, q _ known)
  Ends-known v w Q R (raised e) x known q = (x, q _ known)
  Ends-known v w Q R blocked x known q = x

  module _ {C : Option (Connection H) → Type 0} (steady : IsSteady C) where
    pub Runs_call_known :
        {A : Type 0} (R : Result A → Type 0) (op : Op E H A)
        → ((s : Session E H) → HasResult R (op s).0)
        → Runs (HoldsLinked C) (call op) (λ a w. HoldsLinked C w × R a)
    unfolding call
    Runs_call_known R op known =
        Runs_with_conn (λ w p. p.1)
          (λ c. record {
            run = λ v p.
                Ends-known v _ _ R (op (record { device = c.device; env = v.env })).0
                  (Extends-same v _ refl) (known _)
                  (λ a r. ((steady.kept c _ refl (subst C p.1 p.0.0), tt), r));
          })

    pub Runs_call :
        {A : Type 0} (op : Op E H A) → Runs (HoldsLinked C) (call op) (λ _. HoldsLinked C)
    unfolding call
    Runs_call op =
        Runs_with_conn (λ w p. p.1)
          (λ c. record {
            run = λ v p.
                Ends-result v _ _ (op (record { device = c.device; env = v.env })).0
                  (Extends-same v _ refl) (λ a. (steady.kept c _ refl (subst C p.1 p.0.0), tt));
          })

  pub Runs_in_device :
      {A : Type 0} (C : Option (Connection H) → Type 0) (d : Device H) (op : Op E H A)
      → Runs (Holds C) (in_device d op) (λ _. Holds C)
  unfolding in_device
  Runs_in_device C d op = record {
    run = λ v p.
        Ends-paired v _ _ (op (record { device = d; env = v.env })).0 _ (Extends-same v _ refl)
          (λ a. p);
  }

module _ {E H : Type 0} (host : Host E H) where
  pub Runs_now :
      (P : WatchLoop E H → Type 0)
      → ((w : WatchLoop E H) (e : E) → P w → P (record w { env = e }))
      → Runs P (now host) (λ t. P)
  unfolding now Ends
  Runs_now P keep = record { run = λ v p. (Extends-same v _ refl, keep v _ p) }

  pub Runs_wall_now :
      (P : WatchLoop E H → Type 0)
      → ((w : WatchLoop E H) (e : E) → P w → P (record w { env = e }))
      → Runs P (wall_now host) (λ t. P)
  unfolding wall_now Ends
  Runs_wall_now P keep = record { run = λ v p. (Extends-same v _ refl, keep v _ p) }

  pub Runs_close :
      (P : WatchLoop E H → Type 0) (d : Device H)
      → ((w : WatchLoop E H) (e : E) → P w → P (record w { env = e }))
      → Runs P (close host d) (λ t. P)
  unfolding close
  Runs_close P d keep = Runs_set (λ w. refl) (λ w p. keep w _ p)
