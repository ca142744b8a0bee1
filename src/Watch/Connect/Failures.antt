-- ===== src/Watch/Connect/Failures.antt =====
-- Failed attempts of `WatchLoop` of rust/src/watch.rs: which of them are reported.
use hidpin.Base.{
  ◌%◌, ◌^◌, ◌<◌, ℕ, zero, suc, ◌+◌, ◌≡◌, refl, ap, ◌∙◌, inl, inr, Bool-cases, true, List, [], ◌∷◌,
  ◌++◌, ltb, ◌==◌, if◌then◌else◌, arith,
}
use hidpin.Base.Text.{text_eq, text_eq_refl}
use hidpin.Error.{Error}
use hidpin.Error.Display.{display}
use hidpin.Watch.Connect.{failed, reset_failures}
use hidpin.Watch.Events.{Event, connect_failed}
use hidpin.Watch.Loop.{WatchLoop}

once :
    (n count : ℕ) (now before event : List Event)
    → count ≡ suc n
    → now ≡ (if ltb 0 n then before ++ event else before)
    → (if count + 1 == 2 then now ++ event else now) ≡ before ++ event
once zero count now before event is_count is_now = ground arith
once (suc n) count now before event is_count is_now = ground arith

below_wrap : (x : ℕ) → x < 2 ^ 32 → x % 2 ^ 32 ≡ x
below_wrap x h = omega arith

module _ {E H : Type 0} where
  -- The state after `n` failures of one cause.
  abbrev pub failed_times : ℕ → Error → WatchLoop E H → WatchLoop E H
  failed_times zero error w = w
  failed_times (suc n) error w = failed error (failed_times n error w)

  failed-again :
      (error : Error) (v : WatchLoop E H)
      → text_eq (display error) v.failure ≡ true
      → v.failures + 1 < 2 ^ 32
      → ((failed error v).failures ≡ v.failures + 1)
        × ((failed error v).failure ≡ display error)
        × ((failed error v).pending
            ≡ (if v.failures + 1 == 2 then v.pending ++ (connect_failed error ∷ []) else v.pending))
  unfolding failed
  failed-again error v same small = elim (Bool-cases (v.failures + 1 == 2)) [
    | inl second ↦ rw (same, below_wrap (v.failures + 1) small, second) (refl, refl, refl)
    | inr other ↦ rw (same, below_wrap (v.failures + 1) small, other) (refl, refl, refl)
  ]

  failed-first :
      (error : Error) (v : WatchLoop E H)
      → v.failures ≡ 0
      → ((failed error v).failures ≡ 1)
        × ((failed error v).failure ≡ display error)
        × ((failed error v).pending ≡ v.pending)
  unfolding failed
  failed-first error v fresh = elim (Bool-cases (text_eq (display error) v.failure)) [
    | inl same ↦ rw (same, fresh) (refl, refl, refl)
    | inr other ↦ rw other (refl, refl, refl)
  ]

  -- After the counter was reset, a cause that fails time after time, fewer than 2^32 times, is
  -- reported exactly once, at its second failure, and the counter tells the failures.
  pub failed_times-counts :
      (n : ℕ) (error : Error) (w : WatchLoop E H)
      → suc n < 2 ^ 32
      → let v = failed_times (suc n) error (reset_failures w) in
        (v.failures ≡ suc n)
        × (v.failure ≡ display error)
        × (v.pending ≡ (if ltb 0 n then w.pending ++ (connect_failed error ∷ []) else w.pending))
  unfolding reset_failures
  failed_times-counts zero error w small =
      failed-first error (record w { failure = []; failures = 0 }) refl
  failed_times-counts (suc n) error w small =
      let v = failed_times (suc n) error (reset_failures w) in
      let (count, cause, pending) = failed_times-counts n error w (omega arith) in
      let (count', cause', pending') =
        failed-again error v (ap (text_eq (display error)) cause ∙ text_eq_refl (display error))
          (omega (arith, count)) in
      (
        ground (arith, count', count),
        cause',
        pending'
            ∙ once n v.failures v.pending w.pending (connect_failed error ∷ []) count pending
            ∙ ground arith,
      )
