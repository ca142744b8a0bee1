-- ===== src/Watch/Levels.antt =====
-- The ON/OFF of the monitored pins in `WatchLoop` of rust/src/watch.rs: `absorb`, `set_config` and
-- what they use.
pub mod Known
use hidpin.Base.{
  ℕ, ◌==◌, Bool, true, false, not, ◌&&◌, Option, none, some, List, [], ◌∷◌, ◌++◌, map, differ,
  if◌then◌else◌,
}
use hidpin.Base.Maps.{Map, lookup, insert, retain}
use hidpin.Protocol.Pins.{PinConfig, pull_up, mode_eq, setting_at, is_monitored, mask_to_gpios}
use hidpin.Protocol.Status
use hidpin.Protocol.Status.{StatusReport, EdgeEvent, start_us, level_of}
use hidpin.Transport.{Host}
use hidpin.Watch.Clock.{wall_at}
use hidpin.Watch.Events.{Event, OnOffChange, on_off_change, initial_on_off}
use hidpin.Watch.Loop.{
  WatchLoop, Act, pure, panic, modify, emitted, emit, skip, with_conn, now, wall_now, ◌>>=◌, ◌>>◌,
}

or_pull : Option Bool → Bool → Bool
or_pull (some active_low) pulled_up = active_low
or_pull none pulled_up = pulled_up

-- A change that no edge event reported.
abbrev pub inferred_change : ℕ → Bool → Bool → Event
inferred_change gpio on level =
    on_off_change (record {
      gpio = gpio;
      on = on;
      level = level;
      time = none;
      device_us = none;
      inferred = true;
    })

module _ {E H : Type 0} where
  unfoldable pub is_active_low : WatchLoop E H → ℕ → Bool
  unfolding or_pull
  is_active_low w gpio =
      or_pull (lookup gpio w.active_low) (mode_eq (setting_at w.config gpio).mode pull_up)

  -- The ON/OFF of a pin in a report.
  unfoldable pub reported_on : StatusReport → WatchLoop E H → ℕ → Bool
  reported_on report w gpio = differ (level_of report gpio) (is_active_low w gpio)

  unfoldable pub on_off : StatusReport → WatchLoop E H → Map Bool
  on_off report w = map (λ g. (g, reported_on report w g)) (mask_to_gpios report.monitored)

  -- Records the pin configuration of the device and forgets the ON/OFF of pins that are no longer
  -- monitored or whose pull changed.
  unfoldable pub set_config : PinConfig → WatchLoop E H → WatchLoop E H
  set_config config w = record w {
    known =
        retain
          (λ g.
            is_monitored (setting_at config g)
            && mode_eq (setting_at config g).mode (setting_at w.config g).mode)
          w.known;
    config = config;
  }

  unfoldable pub compare_known :
      Option Bool → ℕ → Bool → Bool → Map Bool × WatchLoop E H → Map Bool × WatchLoop E H
  compare_known none gpio on level (learned, w) = (insert gpio on learned, w)
  compare_known (some was) gpio on level (learned, w) =
      (learned, if differ was on then emitted (inferred_change gpio on level) w else w)

  unfoldable pub learn_pin : StatusReport → ℕ → Map Bool × WatchLoop E H → Map Bool × WatchLoop E H
  learn_pin report gpio (learned, w) =
      let on = reported_on report w gpio in
      let (learned', w') =
        compare_known (lookup gpio w.known) gpio on (level_of report gpio) (learned, w) in
      (learned', record w' { known = insert gpio on w'.known })

  unfoldable pub learn_pins :
      StatusReport → List ℕ → Map Bool × WatchLoop E H → Map Bool × WatchLoop E H
  learn_pins report [] acc = acc
  learn_pins report (g ∷ gs) acc = learn_pins report gs (learn_pin report g acc)

  abbrev pub announce : Map Bool → WatchLoop E H → WatchLoop E H
  announce [] w = w
  announce (p ∷ ps) w = emitted (initial_on_off (p ∷ ps)) w

  -- The second half of `absorb`: the pin levels of the report.
  unfoldable pub absorb_levels : StatusReport → WatchLoop E H → WatchLoop E H
  absorb_levels report w =
      let (learned, w') = learn_pins report (mask_to_gpios report.monitored) ([], w) in
      announce learned (record w' { known = retain (Status.is_monitored report) w'.known })

module _ {E H : Type 0} (host : Host E H) where
  abbrev pub at_or_panic : Option ℕ → Act E H (Option ℕ)
  at_or_panic none = panic
  at_or_panic (some t) = pure (some t)

  -- `conn.clock.at(start)` of the start of a change that is known.
  unfoldable pub change_time : Option ℕ → Act E H (Option ℕ)
  change_time none = pure none
  change_time (some start) = with_conn λ c. do
    instant ← now host
    wall ← wall_now host
    at_or_panic (wall_at c.clock start instant wall)

  unfoldable pub absorb_known : ℕ → EdgeEvent → Option Bool → Act E H (Unit {0})
  absorb_known timestamp_us event none w = skip w
  absorb_known timestamp_us event (some was) w =
      let on = differ event.level (is_active_low w event.gpio) in
      (do
        modify (
            if not (differ on was)
            then emitted (inferred_change event.gpio (not on) (not event.level))
            else λ v. v)
        time ← change_time (start_us event timestamp_us)
        emit (
            on_off_change (record {
              gpio = event.gpio;
              on = on;
              level = event.level;
              time = time;
              device_us = start_us event timestamp_us;
              inferred = false;
            }))
        modify (λ v. record v { known = insert event.gpio on v.known }))
        w

  unfoldable pub absorb_event : ℕ → EdgeEvent → Act E H (Unit {0})
  absorb_event timestamp_us event w = absorb_known timestamp_us event (lookup event.gpio w.known) w

  unfoldable pub absorb_events : ℕ → List EdgeEvent → Act E H (Unit {0})
  absorb_events timestamp_us [] = skip
  absorb_events timestamp_us (event ∷ events) = do
    absorb_event timestamp_us event
    absorb_events timestamp_us events

  -- Updates the known ON/OFF from a status report and reports what changed.
  unfoldable pub absorb : StatusReport → Act E H (Unit {0})
  absorb report = do absorb_events report.timestamp_us report.events; modify (absorb_levels report)
