-- ===== src/Watch/Runtime/Leaving.antt =====
-- The thread of rust/src/watch.rs leaves its loop without an error only when it was asked to stop.
use hidpin.Base.{
  ℕ, ◌≡◌, refl, sym, subst, ◌∙◌, Bool, Bool-cases, inl, inr, true, Option, none, some, [], ◌∷◌,
}
use hidpin.Error.{Error}
use hidpin.Transport.{Host}
use hidpin.Watch.Connect.{drop_connection}
use hidpin.Watch.Runtime.{
  Phase, turning, serving, acting, pausing, asleep, leaving, closing, over, hung, crashed, System,
}
use hidpin.Watch.Runtime.Api.{started, notify, woken, request_stop}
use hidpin.Watch.Runtime.Fields.{phase-turn, phase-served, phase-acted, phase-left, shared-left}
use hidpin.Watch.Runtime.Invariant.{IsInvariant}
use hidpin.Watch.Runtime.Thread.{turn, is_busy, rest_or_turn, conclude, step_from, thread_step}

-- A thread that leaves the loop without an error was asked to stop.
abbrev pub IsAsked : Phase → Bool → Type 0
IsAsked (leaving none) stopping = stopping ≡ true
IsAsked (closing none) stopping = stopping ≡ true
IsAsked phase stopping = Unit

IsAsked-woken :
    (phase : Phase) (stopping : Bool) → IsAsked phase stopping → IsAsked (woken phase) stopping
unfolding woken
IsAsked-woken (asleep wait) stopping x = tt
IsAsked-woken phase stopping x = x

IsAsked-stopping : (phase : Phase) → IsAsked (woken phase) true
unfolding woken
IsAsked-stopping (leaving none) = refl
IsAsked-stopping (closing none) = refl
IsAsked-stopping phase = tt

IsAsked-closing :
    (result : Option Error) (b : Bool) → IsAsked (leaving result) b → IsAsked (closing result) b
IsAsked-closing none b x = x
IsAsked-closing (some error) b x = tt

module _ {E H : Type 0} where
  pub stopping-turn : (s : System E H) → (turn s).shared.stopping ≡ s.shared.stopping
  unfolding turn
  stopping-turn s = elim (Bool-cases s.shared.stopping) [ inl e ↦ rw e refl | inr e ↦ rw e refl ]

module _ {E H : Type 0} (host : Host E H) (rounds : ℕ) where
  IsAsked-step_from :
      (phase : Phase) (s : System E H)
      → s.phase ≡ phase
      → IsAsked phase s.shared.stopping
      → let t = step_from host rounds phase s in IsAsked t.phase t.shared.stopping
  unfolding step_from conclude rest_or_turn
  IsAsked-step_from turning s e x =
      phase-turn (λ p. IsAsked p (turn s).shared.stopping) s (λ halted. stopping-turn s ∙ halted) tt
        (λ requests. tt)
  IsAsked-step_from (serving []) s e x = tt
  IsAsked-step_from (serving (r ∷ rest)) s e x =
      phase-served (λ p. IsAsked p (step_from host rounds (serving (r ∷ rest)) s).shared.stopping) r
        rest _ _ s tt (λ error. tt) tt tt
  IsAsked-step_from acting s e x =
      phase-acted (λ p. IsAsked p (step_from host rounds acting s).shared.stopping) _ _ s tt
        (λ wait. tt) (λ error. tt) tt tt
  IsAsked-step_from (pausing wait) s e x = elim (Bool-cases (is_busy s)) [
    | inl b ↦ rw b tt
    | inr b ↦ rw b tt
  ]
  IsAsked-step_from (asleep wait) s e x = subst (λ p. IsAsked p s.shared.stopping) (sym e) tt
  IsAsked-step_from (leaving result) s e x =
      let (v, w) = drop_connection host s.loop in
      let kept =
        subst (λ a. IsAsked (leaving result) a.stopping) (sym (shared-left result v w s)) x in
      phase-left (λ p. IsAsked p (step_from host rounds (leaving result) s).shared.stopping) result
        v w s (IsAsked-closing result _ kept) tt tt
  IsAsked-step_from (closing none) s e x = tt
  IsAsked-step_from (closing (some error)) s e x = tt
  IsAsked-step_from over s e x = subst (λ p. IsAsked p s.shared.stopping) (sym e) tt
  IsAsked-step_from hung s e x = subst (λ p. IsAsked p s.shared.stopping) (sym e) tt
  IsAsked-step_from crashed s e x = subst (λ p. IsAsked p s.shared.stopping) (sym e) tt

  pub IsAsked-IsInvariant : IsInvariant host rounds (λ s. IsAsked s.phase s.shared.stopping)
  unfolding thread_step started notify request_stop
  IsAsked-IsInvariant = record {
    at_start = λ options t env. tt;
    by_thread = λ s x. IsAsked-step_from s.phase s refl x;
    by_wake = λ s x. IsAsked-woken s.phase s.shared.stopping x;
    by_take = λ event rest s first x. IsAsked-woken s.phase s.shared.stopping x;
    by_call = λ r s unfinished running x. IsAsked-woken s.phase s.shared.stopping x;
    by_stop = λ s x. IsAsked-stopping s.phase;
  }
