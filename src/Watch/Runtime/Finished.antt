-- ===== src/Watch/Runtime/Finished.antt =====
-- What holds once the thread of rust/src/watch.rs has finished.
use hidpin.Base.{
  ℕ, ◌≡◌, refl, sym, ◌∙◌, subst, ◌∷◌, Bool-cases, inl, inr, true, false, none, some, [],
}
use hidpin.Transport.{Host}
use hidpin.Watch.Runtime.{
  Shared, Phase, turning, serving, acting, pausing, asleep, leaving, closing, over, hung, crashed,
  System,
}
use hidpin.Watch.Runtime.Api.{started, notify, woken, request_stop}
use hidpin.Watch.Runtime.Fields.{phase-turn, phase-served, phase-acted, phase-left}
use hidpin.Watch.Runtime.Invariant.{IsInvariant}
use hidpin.Watch.Runtime.Thread.{turn, rest_or_turn, is_busy, conclude, step_from, thread_step}

-- A thread that has finished has said so, and left no request.
abbrev pub IsDrained : Phase → Shared → Type 0
IsDrained over shared = (shared.finished ≡ true) × (shared.requests ≡ [])
IsDrained phase shared = Unit

IsDrained-woken :
    (phase : Phase) (a b : Shared)
    → b.finished ≡ a.finished
    → b.requests ≡ a.requests
    → IsDrained phase a
    → IsDrained (woken phase) b
unfolding woken
IsDrained-woken over a b same_finished same_requests (done, empty) =
    (same_finished ∙ done, same_requests ∙ empty)
IsDrained-woken (asleep wait) a b same_finished same_requests x = tt
IsDrained-woken phase a b same_finished same_requests x = tt

IsDrained-called :
    (phase : Phase) (a b : Shared)
    → a.finished ≡ false
    → IsDrained phase a
    → IsDrained (woken phase) b
unfolding woken
IsDrained-called over a b unfinished (done, empty) = absurd cc
IsDrained-called (asleep wait) a b unfinished x = tt
IsDrained-called phase a b unfinished x = tt

module _ {E H : Type 0} (host : Host E H) (rounds : ℕ) where
  IsDrained-step_from :
      (phase : Phase) (s : System E H)
      → s.phase ≡ phase
      → IsDrained phase s.shared
      → let t = step_from host rounds phase s in IsDrained t.phase t.shared
  unfolding step_from conclude rest_or_turn
  IsDrained-step_from turning s e x =
      phase-turn (λ p. IsDrained p (turn s).shared) s (λ halted. tt) tt (λ requests. tt)
  IsDrained-step_from (serving []) s e x = tt
  IsDrained-step_from (serving (r ∷ rest)) s e x =
      phase-served (λ p. IsDrained p (step_from host rounds (serving (r ∷ rest)) s).shared) r rest _
        _ s tt (λ error. tt) tt tt
  IsDrained-step_from acting s e x =
      phase-acted (λ p. IsDrained p (step_from host rounds acting s).shared) _ _ s tt (λ wait. tt)
        (λ error. tt) tt tt
  IsDrained-step_from (pausing wait) s e x = elim (Bool-cases (is_busy s)) [
    | inl b ↦ rw b tt
    | inr b ↦ rw b tt
  ]
  IsDrained-step_from (asleep wait) s e x = subst (λ p. IsDrained p s.shared) (sym e) tt
  IsDrained-step_from (leaving result) s e x =
      phase-left (λ p. IsDrained p (step_from host rounds (leaving result) s).shared) result _ _ s
        tt tt tt
  IsDrained-step_from (closing none) s e x = (refl, refl)
  IsDrained-step_from (closing (some error)) s e x = (refl, refl)
  IsDrained-step_from over s e x = subst (λ p. IsDrained p s.shared) (sym e) x
  IsDrained-step_from hung s e x = subst (λ p. IsDrained p s.shared) (sym e) tt
  IsDrained-step_from crashed s e x = subst (λ p. IsDrained p s.shared) (sym e) tt

  pub IsDrained-IsInvariant : IsInvariant host rounds (λ s. IsDrained s.phase s.shared)
  unfolding thread_step started notify request_stop
  IsDrained-IsInvariant = record {
    at_start = λ options t env. tt;
    by_thread = λ s x. IsDrained-step_from s.phase s refl x;
    by_wake = λ s x. IsDrained-woken s.phase s.shared s.shared refl refl x;
    by_take = λ event rest s first x. IsDrained-woken s.phase s.shared _ refl refl x;
    by_call = λ r s unfinished running x. IsDrained-called s.phase s.shared _ unfinished x;
    by_stop = λ s x. IsDrained-woken s.phase s.shared _ refl refl x;
  }
