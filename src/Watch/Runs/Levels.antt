-- ===== src/Watch/Runs/Levels.antt =====
-- `absorb` of rust/src/watch.rs runs in every state that has a connection with a clock that has a
-- sample.
use hidpin.Base.{
  ℕ, ◌≡◌, refl, sym, ◌∙◌, Bool, Bool-cases, inl, inr, true, false, not, Option, none, some, List,
  [], ◌∷◌, subst, if◌then◌else◌, differ,
}
use hidpin.Base.Maps.{Map, lookup, retain}
use hidpin.Protocol.Pins.{mask_to_gpios}
use hidpin.Protocol.Status
use hidpin.Protocol.Status.{StatusReport, EdgeEvent, start_us, level_of}
use hidpin.Transport.{Host}
use hidpin.Watch.Clock.{DeviceClock, Sample, instant_at, wall_at}
use hidpin.Watch.Events.{Event}
use hidpin.Watch.Levels.{
  inferred_change, is_active_low, reported_on, compare_known, learn_pin, learn_pins, announce,
  absorb_levels, at_or_panic, change_time, absorb_known, absorb_event, absorb_events, absorb,
}
use hidpin.Watch.Loop.{WatchLoop, emitted}
use hidpin.Watch.Runs.{
  Extends, Ends, Extends-same, Extends-trans, Extends-emitted, Runs, Runs_bind, Runs_pre, Runs_pure,
  Runs_modify, Runs_set, Runs_emit, Runs_at,
}
use hidpin.Watch.Runs.Calls.{
  IsLinked, HasSample, IsTimed, HoldsLinked, Runs_with_conn, Runs_now, Runs_wall_now,
}

HasTime : Option ℕ → Type 0
HasTime none = ⊥
HasTime (some t) = Unit

HasTime-wall_at_of :
    (cur prev : Option Sample) (start : Option ℕ) (device_us at wall : ℕ)
    → HasSample cur
    → HasTime (wall_at (record { cur = cur; prev = prev; cur_start = start }) device_us at wall)
unfolding wall_at instant_at HasTime
HasTime-wall_at_of none prev start device_us at wall sample = absurd sample
HasTime-wall_at_of (some cur) prev start device_us at wall sample = tt

HasTime-wall_at :
    (c : DeviceClock) (device_us at wall : ℕ)
    → HasSample c.cur
    → HasTime (wall_at c device_us at wall)
HasTime-wall_at c device_us at wall sample =
    HasTime-wall_at_of c.cur c.prev c.cur_start device_us at wall sample

module _ {E H : Type 0} where
  -- A change of the state that appends events and keeps the connection.
  pub record Appends (v w : WatchLoop E H) : Type 0 where
    pub extends : Extends v w
    pub linked : w.conn ≡ v.conn

  Appends-compare_known :
      (was : Option Bool) (gpio : ℕ) (on level : Bool) (learned : Map Bool) (w : WatchLoop E H)
      → Appends w (compare_known was gpio on level (learned, w)).1
  unfolding compare_known
  Appends-compare_known none gpio on level learned w = record {
    extends = Extends-same w w refl;
    linked = refl;
  }
  Appends-compare_known (some was) gpio on level learned w = elim (Bool-cases (differ was on)) [
    | inl e ↦ rw e record { extends = Extends-emitted _ w; linked = refl }
    | inr e ↦ rw e record { extends = Extends-same w w refl; linked = refl }
  ]

  Appends-learn_pins :
      (report : StatusReport) (gs : List ℕ) (learned : Map Bool) (v w : WatchLoop E H)
      → Appends v w
      → Appends v (learn_pins report gs (learned, w)).1
  unfolding learn_pins learn_pin
  Appends-learn_pins report [] learned v w x = x
  Appends-learn_pins report (g ∷ gs) learned v w x =
      let y =
        Appends-compare_known (lookup g w.known) g (reported_on report w g) (level_of report g)
          learned w in
      Appends-learn_pins report gs _ v _ (record {
        extends = Extends-trans x.extends (Extends-trans y.extends (Extends-same _ _ refl));
        linked = y.linked ∙ x.linked;
      })

  Appends-announce :
      (learned : Map Bool) (v w : WatchLoop E H) → Appends v w → Appends v (announce learned w)
  Appends-announce [] v w x = x
  Appends-announce (p ∷ ps) v w x = record {
    extends = Extends-trans x.extends (Extends-emitted _ w);
    linked = x.linked;
  }

  Appends-absorb_levels :
      (report : StatusReport) (w : WatchLoop E H) → Appends w (absorb_levels report w)
  unfolding absorb_levels
  Appends-absorb_levels report w =
      let x =
        Appends-learn_pins report (mask_to_gpios report.monitored) [] w w
          (record { extends = Extends-same w w refl; linked = refl }) in
      let r = learn_pins report (mask_to_gpios report.monitored) ([], w) in
      Appends-announce r.0 w (record r.1 { known = retain (Status.is_monitored report) r.1.known })
        (record { extends = Extends-trans x.extends (Extends-same _ _ refl); linked = x.linked })

  abbrev pub IsReady : WatchLoop E H → Type 0
  IsReady = HoldsLinked IsTimed

  pub IsReady-moved : (v w : WatchLoop E H) → Appends v w → IsReady v → IsReady w
  IsReady-moved v w x p = (subst IsTimed (sym x.linked) p.0, subst IsLinked (sym x.linked) p.1)

  Appends-when :
      (test : Bool) (event : Event) (w : WatchLoop E H)
      → Appends w ((if test then emitted event else (λ v. v)) w)
  Appends-when true event w = record { extends = Extends-emitted event w; linked = refl }
  Appends-when false event w = record { extends = Extends-same w w refl; linked = refl }

module _ {E H : Type 0} (host : Host E H) where
  Runs_at_or_panic :
      (t : Option ℕ)
      → Runs {E = E} (λ w. IsReady w × HasTime t) (at_or_panic host t) (λ t'. IsReady)
  unfolding Ends HasTime
  Runs_at_or_panic none = record { run = λ v p. p.1 }
  Runs_at_or_panic (some t) = Runs_pure (λ w p. p.0)

  Runs_change_time :
      (start : Option ℕ) → Runs {E = E} IsReady (change_time host start) (λ t. IsReady)
  unfolding change_time
  Runs_change_time none = Runs_pure (λ w p. p)
  Runs_change_time (some start) =
      Runs_with_conn (λ w p. p.1)
        (λ c.
          Runs_pre (λ w p. (p.0, subst IsTimed p.1 p.0.0))
            (Runs_bind (Runs_now host (λ w. IsReady w × HasSample c.clock.cur) (λ w e p. p)) (λ at.
              Runs_bind (Runs_wall_now host (λ w. IsReady w × HasSample c.clock.cur) (λ w e p. p))
                (λ wall.
                  Runs_pre (λ w p. (p.0, HasTime-wall_at c.clock start at wall p.1))
                    (Runs_at_or_panic (wall_at c.clock start at wall))))))

  Runs_absorb_known :
      (timestamp_us : ℕ) (event : EdgeEvent) (was : Option Bool)
      → Runs {E = E} IsReady (absorb_known host timestamp_us event was) (λ u. IsReady)
  unfolding absorb_known
  Runs_absorb_known timestamp_us event none = Runs_pure (λ w p. p)
  Runs_absorb_known timestamp_us event (some was) = record {
    run = λ v p.
        let on = differ event.level (is_active_low v event.gpio) in
        (Runs_bind
            (Runs_modify (λ w q.
              let x =
                Appends-when (not (differ on was))
                  (inferred_change event.gpio (not on) (not event.level)) w in
              (x.extends, IsReady-moved w _ x q)))
            (λ u. Runs_bind (Runs_change_time (start_us event timestamp_us)) (λ time.
              Runs_bind (Runs_emit (λ w q. q)) (λ u'. Runs_set (λ w. refl) (λ w q. q))))).run
          v p;
  }

  Runs_absorb_events :
      (timestamp_us : ℕ) (events : List EdgeEvent)
      → Runs {E = E} IsReady (absorb_events host timestamp_us events) (λ u. IsReady)
  unfolding absorb_events absorb_event
  Runs_absorb_events timestamp_us [] = Runs_pure (λ w p. p)
  Runs_absorb_events timestamp_us (event ∷ events) =
      Runs_bind (Runs_at (λ was. Runs_pre (λ w p. p.0) (Runs_absorb_known timestamp_us event was)))
        (λ u. Runs_absorb_events timestamp_us events)

  pub Runs_absorb :
      (report : StatusReport) → Runs {E = E} IsReady (absorb host report) (λ u. IsReady)
  unfolding absorb
  Runs_absorb report = Runs_bind (Runs_absorb_events report.timestamp_us report.events) (λ u.
      Runs_modify
        (λ w p. let x = Appends-absorb_levels report w in (x.extends, IsReady-moved w _ x p)))
