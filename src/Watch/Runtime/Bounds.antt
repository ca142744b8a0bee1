-- ===== src/Watch/Runtime/Bounds.antt =====
-- The buffer between the thread and the application of rust/src/watch.rs, and the times that the
-- thread waits.
use hidpin.Base.{
  ℕ, ◌≤◌, ◌≡◌, ◌⊎◌, refl, sym, subst, Bool-cases, inl, inr, true, false, Option, none, some, List,
  [], ◌∷◌, ◌++◌, ltb, ltb→lt, length, length-append, arith,
}
use hidpin.Transport.{Host}
use hidpin.Watch.Events.{Event}
use hidpin.Watch.Runtime.{
  out_capacity, read_poll, least_read, Shared, Phase, turning, serving, acting, pausing, asleep,
  leaving, closing, over, hung, crashed, System,
}
use hidpin.Watch.Runtime.Api.{WatchOptions, started, notify, request_stop}
use hidpin.Watch.Runtime.Fields.{shared-served, shared-acted, shared-left}
use hidpin.Watch.Runtime.Invariant.{IsInvariant, Reached_invariant}
use hidpin.Watch.Runtime.Steps.{Label, Reached}
use hidpin.Watch.Runtime.Thread.{
  hand_over, turn, rest_or_turn, conclude, step_from, thread_step, read_timeout,
}

-- The events that are out fit, unless the thread has finished.
abbrev Fits : Shared → Type 0
Fits shared = (shared.finished ≡ true) ⊎ (length shared.out ≤ out_capacity)

length-hand_over :
    (out pending : List Event)
    → length out ≤ out_capacity
    → length (hand_over out pending).0 ≤ out_capacity
unfolding hand_over
length-hand_over out [] fits = fits
length-hand_over out (e ∷ es) fits = elim (Bool-cases (ltb (length out) out_capacity)) [
  | inl h ↦ rw h (
      length-hand_over (out ++ (e ∷ [])) es
        (grind (arith, length-append out (e ∷ []), ltb→lt (length out) out_capacity h)))
  | inr h ↦ rw h fits
]

Fits-taken :
    (event : Event) (rest : List Event) (shared : Shared)
    → shared.out ≡ event ∷ rest
    → Fits shared
    → Fits (record shared { out = rest })
Fits-taken event rest shared first (inl done) = inl done
Fits-taken event rest shared first (inr fits) =
    let fits' = subst (λ l. length l ≤ out_capacity) first fits in inr (omega (arith, fits'))

module _ {E H : Type 0} where
  Fits-turn : (s : System E H) → Fits s.shared → Fits (turn s).shared
  unfolding turn
  Fits-turn s (inl done) = elim (Bool-cases s.shared.stopping) [
    | inl e ↦ rw e (inl done)
    | inr e ↦ rw e (inl done)
  ]
  Fits-turn s (inr fits) =
      let fits' = length-hand_over s.shared.out s.loop.pending fits in
      elim (Bool-cases s.shared.stopping) [ inl e ↦ rw e (inr fits') | inr e ↦ rw e (inr fits') ]

module _ {E H : Type 0} (host : Host E H) (rounds : ℕ) where
  Fits-step_from :
      (phase : Phase) (s : System E H) → Fits s.shared → Fits (step_from host rounds phase s).shared
  unfolding step_from rest_or_turn conclude
  Fits-step_from turning s fits = Fits-turn s fits
  Fits-step_from (serving []) s fits = fits
  Fits-step_from (serving (r ∷ rest)) s fits = subst Fits (sym (shared-served r rest _ _ s)) fits
  Fits-step_from acting s fits = subst Fits (sym (shared-acted _ _ s)) fits
  Fits-step_from (pausing wait) s fits = fits
  Fits-step_from (asleep wait) s fits = fits
  Fits-step_from (leaving result) s fits = subst Fits (sym (shared-left result _ _ s)) fits
  Fits-step_from (closing none) s fits = inl refl
  Fits-step_from (closing (some error)) s fits = inl refl
  Fits-step_from over s fits = fits
  Fits-step_from hung s fits = fits
  Fits-step_from crashed s fits = fits

  Fits-IsInvariant : IsInvariant host rounds (λ s. Fits s.shared)
  unfolding thread_step started notify request_stop
  Fits-IsInvariant = record {
    at_start = λ options t env. inr (omega arith);
    by_thread = λ s fits. Fits-step_from s.phase s fits;
    by_wake = λ s fits. fits;
    by_take = λ event rest s first fits. Fits-taken event rest s.shared first fits;
    by_call = λ r s unfinished running fits. fits;
    by_stop = λ s fits. fits;
  }

  -- In every state that a watcher reaches in which its thread has not finished, at most 16 events
  -- wait for the application.
  pub length-Reached :
      (options : WatchOptions) (ls : List Label) (s : System E H)
      → Reached host rounds options ls s
      → s.shared.finished ≡ false
      → length s.shared.out ≤ out_capacity
  length-Reached options ls s reached running =
      elim (Reached_invariant host rounds Fits-IsInvariant reached) [
        | inl done ↦ absurd cc
        | inr fits ↦ fits
      ]

-- One read of the device waits at least a millisecond and at most 50; between them, it ends when
-- the next time is due.
pub read_timeout-range :
    (wait : Option ℕ) (w : ℕ)
    → (least_read ≤ read_timeout wait)
      × (read_timeout wait ≤ read_poll)
      × (least_read ≤ w → w ≤ read_poll → read_timeout (some w) ≡ w)
unfolding read_timeout
read_timeout-range none w = (omega arith, omega arith, λ h k. omega arith)
read_timeout-range (some wait) w = (omega arith, omega arith, λ h k. omega arith)
