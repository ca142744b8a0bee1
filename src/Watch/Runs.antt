-- ===== src/Watch/Runs.antt =====
-- How an action of `WatchLoop` (rust/src/watch.rs) may end: rules for actions that never panic and
-- that only append to the events.
pub mod Calls
pub mod Restore
pub mod Levels
pub mod Report
pub mod Finding
pub mod Retarget
pub mod Calm
use hidpin.Base.{
  ℕ, ◌≡◌, refl, sym, ap, ◌∙◌, Bool, true, false, Bool-cases, inl, inr, Option, none, some, List, [],
  ◌∷◌, ◌++◌, append-cancel, append-nil, if◌then◌else◌,
}
use hidpin.Device.Monad.{Device, Op}
use hidpin.Error.{Error, Result}
use hidpin.Transport.{Host, Outcome, done, raised, blocked}
use hidpin.Watch.Events.{Event}
use hidpin.Watch.Loop.{
  Connection, WatchLoop, Verdict, going, fatal, stuck, panicked, Act, pure, stop, gets, proceed,
  modify, emitted, emit, with_conn, as_result, paired, call, in_device, now, wall_now, close, ◌>>=◌,
}

module _ {E H : Type 0} where
  -- The events of the later state are those of the earlier one and some more.
  pub record Extends (v w : WatchLoop E H) : Type 0 where
    pub more : List Event
    pub appended : w.pending ≡ v.pending ++ more

  pub Extends-same : (v w : WatchLoop E H) → w.pending ≡ v.pending → Extends v w
  Extends-same v w same = record { more = []; appended = same ∙ append-nil v.pending }

  pub Extends-trans : {u v w : WatchLoop E H} → Extends u v → Extends v w → Extends u w
  Extends-trans {u} {v} {w} x y = record {
    more = x.more ++ y.more;
    appended =
        y.appended ∙ ap (λ l. l ++ y.more) x.appended ∙ append-cancel u.pending x.more y.more;
  }

  -- How an action ends that started in `v`: not in a panic.
  unfoldable pub Ends :
      {A : Type 0}
      → WatchLoop E H
      → (A → WatchLoop E H → Type 0)
      → Verdict A
      → WatchLoop E H
      → Type 0
  Ends v Q (going a) w = Extends v w × Q a w
  Ends v Q (fatal e) w = Extends v w
  Ends v Q stuck w = Extends v w
  Ends v Q panicked w = ⊥

  pub Extends-Ends :
      {A : Type 0} (v w : WatchLoop E H) (Q : A → WatchLoop E H → Type 0) (r : Verdict A)
      → Ends v Q r w
      → Extends v w
  unfolding Ends
  Extends-Ends v w Q (going a) (x, q) = x
  Extends-Ends v w Q (fatal e) x = x
  Extends-Ends v w Q stuck x = x
  Extends-Ends v w Q panicked x = absurd x

  -- From a state with `P` the action does not panic, only appends events, and if it goes on, then
  -- with `Q`.
  pub record Runs {A : Type 0} (P : WatchLoop E H → Type 0) (m : Act E H A)
      (Q : A → WatchLoop E H → Type 0) : Type 0 where
    pub run : (v : WatchLoop E H) → P v → Ends v Q (m v).0 (m v).1

  pub Ends-later :
      {A : Type 0} (u v w : WatchLoop E H) (Q : A → WatchLoop E H → Type 0) (r : Verdict A)
      → Extends u v
      → Ends v Q r w
      → Ends u Q r w
  unfolding Ends
  Ends-later u v w Q (going a) x (y, q) = (Extends-trans x y, q)
  Ends-later u v w Q (fatal e) x y = Extends-trans x y
  Ends-later u v w Q stuck x y = Extends-trans x y
  Ends-later u v w Q panicked x y = y

  Ends-bind :
      {A B : Type 0} (R : A → WatchLoop E H → Type 0) (f : A → Act E H B)
      (Q : B → WatchLoop E H → Type 0)
      → ((a : A) → Runs (R a) (f a) Q)
      → (u v : WatchLoop E H) (r : Verdict A) → Ends u R r v
      → Ends u Q (proceed r f v).0 (proceed r f v).1
  unfolding Ends
  Ends-bind R f Q next u v (going a) (x, q) = Ends-later u v _ Q _ x ((next a).run v q)
  Ends-bind R f Q next u v (fatal e) x = x
  Ends-bind R f Q next u v stuck x = x
  Ends-bind R f Q next u v panicked x = x

  pub Runs_bind :
      {A B : Type 0} {P : WatchLoop E H → Type 0} {m : Act E H A} {R : A → WatchLoop E H → Type 0}
      {f : A → Act E H B} {Q : B → WatchLoop E H → Type 0}
      → Runs P m R
      → ((a : A) → Runs (R a) (f a) Q)
      → Runs P (m >>= f) Q
  unfolding ◌>>=◌
  Runs_bind {m} {R} {f} {Q} first next = record {
    run = λ v p. Ends-bind R f Q next v (m v).1 (m v).0 (first.run v p);
  }

  Ends-weaken :
      {A : Type 0} (Q Q' : A → WatchLoop E H → Type 0)
      → ((a : A) (w : WatchLoop E H) → Q a w → Q' a w)
      → (u w : WatchLoop E H) (r : Verdict A) → Ends u Q r w
      → Ends u Q' r w
  unfolding Ends
  Ends-weaken Q Q' f u w (going a) (x, q) = (x, f a w q)
  Ends-weaken Q Q' f u w (fatal e) x = x
  Ends-weaken Q Q' f u w stuck x = x
  Ends-weaken Q Q' f u w panicked x = x

  pub Runs_post :
      {A : Type 0} {P : WatchLoop E H → Type 0} {m : Act E H A} {Q Q' : A → WatchLoop E H → Type 0}
      → ((a : A) (w : WatchLoop E H) → Q a w → Q' a w)
      → Runs P m Q
      → Runs P m Q'
  Runs_post {m} {Q} {Q'} f first = record {
    run = λ v p. Ends-weaken Q Q' f v (m v).1 (m v).0 (first.run v p);
  }

  pub Runs_pre :
      {A : Type 0} {P P' : WatchLoop E H → Type 0} {m : Act E H A} {Q : A → WatchLoop E H → Type 0}
      → ((w : WatchLoop E H) → P w → P' w)
      → Runs P' m Q
      → Runs P m Q
  Runs_pre f first = record { run = λ v p. first.run v (f v p) }

  -- An action that leaves the events alone and cannot fail.
  pub Runs_pure :
      {A : Type 0} {P : WatchLoop E H → Type 0} {a : A} {Q : A → WatchLoop E H → Type 0}
      → ((w : WatchLoop E H) → P w → Q a w)
      → Runs P (pure a) Q
  unfolding Ends
  Runs_pure f = record { run = λ v p. (Extends-same v v refl, f v p) }

  pub Runs_gets :
      {A : Type 0} {P : WatchLoop E H → Type 0} {f : WatchLoop E H → A}
      → Runs P (gets f) (λ a w. P w × (f w ≡ a))
  unfolding Ends
  Runs_gets = record { run = λ v p. (Extends-same v v refl, (p, refl)) }

  pub Runs_stop :
      {A : Type 0} {P : WatchLoop E H → Type 0} {e : Error} {Q : A → WatchLoop E H → Type 0}
      → Runs P (stop e) Q
  unfolding Ends
  Runs_stop = record { run = λ v p. Extends-same v v refl }

  pub Runs_modify :
      {P : WatchLoop E H → Type 0} {f : WatchLoop E H → WatchLoop E H}
      {Q : Unit {0} → WatchLoop E H → Type 0}
      → ((w : WatchLoop E H) → P w → Extends w (f w) × Q tt (f w))
      → Runs P (modify f) Q
  unfolding Ends
  Runs_modify keep = record { run = λ v p. keep v p }

  -- A change of fields other than the events.
  pub Runs_set :
      {P : WatchLoop E H → Type 0} {f : WatchLoop E H → WatchLoop E H}
      {Q : Unit {0} → WatchLoop E H → Type 0}
      → ((w : WatchLoop E H) → (f w).pending ≡ w.pending)
      → ((w : WatchLoop E H) → P w → Q tt (f w))
      → Runs P (modify f) Q
  Runs_set same keep = Runs_modify (λ w p. (Extends-same w _ (same w), keep w p))

  pub Extends-emitted : (event : Event) (w : WatchLoop E H) → Extends w (emitted event w)
  Extends-emitted event w = record { more = event ∷ []; appended = refl }

  pub Runs_emit :
      {P : WatchLoop E H → Type 0} {event : Event} {Q : Unit {0} → WatchLoop E H → Type 0}
      → ((w : WatchLoop E H) → P w → Q tt (emitted event w))
      → Runs P (emit event) Q
  Runs_emit {event} keep = Runs_modify (λ w p. (Extends-emitted event w, keep w p))

  pub Runs_if :
      {A : Type 0} {P : WatchLoop E H → Type 0} {m n : Act E H A} {Q : A → WatchLoop E H → Type 0}
      (test : Bool)
      → Runs P m Q
      → Runs P n Q
      → Runs P (if test then m else n) Q
  Runs_if test x y = elim (Bool-cases test) [ inl e ↦ rw e x | inr e ↦ rw e y ]

  pub Runs_choose :
      {A : Type 0} {P : WatchLoop E H → Type 0} {m n : Act E H A} {Q : A → WatchLoop E H → Type 0}
      (test : Bool)
      → Runs P m Q
      → Runs P n Q
      → Runs P (λ w. if test then m w else n w) Q
  Runs_choose test x y = elim (Bool-cases test) [ inl e ↦ rw e x | inr e ↦ rw e y ]

  -- An action that is chosen by the state.
  pub Runs_at :
      {A X : Type 0} {P : WatchLoop E H → Type 0} {g : WatchLoop E H → X} {f : X → Act E H A}
      {Q : A → WatchLoop E H → Type 0}
      → ((x : X) → Runs (λ w. P w × (g w ≡ x)) (f x) Q)
      → Runs P (λ w. f (g w) w) Q
  Runs_at {g} each = record { run = λ v p. (each (g v)).run v (p, refl) }
