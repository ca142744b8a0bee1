-- ===== src/Watch/Runtime/Stopping.antt =====
-- A watcher of rust/src/watch.rs that is asked to stop stops.
use hidpin.Base.{
  subst, ℕ, zero, suc, ◌+◌, ◌≡◌, ◌≢◌, ◌≤◌, arith, ◌⊎◌, refl, sym, subst, ap, ◌∙◌, Bool, inl, inr,
  true, false, Option, none, some, List, [], ◌∷◌, length, ◌||◌, not,
}
use hidpin.Transport.{Host}
use hidpin.Watch.Runtime.{
  Request, Phase, turning, serving, acting, pausing, asleep, leaving, closing, over, hung, crashed,
  System,
}
use hidpin.Watch.Runtime.Api.{WatchOptions}
use hidpin.Watch.Runtime.Leaving.{stopping-turn}
use hidpin.Watch.Runtime.Fields.{
  phase-served, phase-acted, phase-left, shared-served, shared-acted, shared-left,
}
use hidpin.Watch.Runtime.Safety.{IsAlive, IsAlive-Reached}
use hidpin.Watch.Runtime.Steps.{Label, silent, thread, Reached, then_step}
use hidpin.Watch.Runtime.Thread.{
  is_empty, turn, is_busy, rest_or_turn, conclude, step_from, thread_step,
}
use hidpin.Watch.Runtime.Wakeups.{Reached-rested}

or_true : (b : Bool) → (b || true) ≡ true
or_true true = refl
or_true false = refl

-- The requests that the thread still has to serve.
abbrev pub in_service : Phase → List Request
in_service (serving requests) = requests
in_service phase = []

-- The thread moves no more: it has finished, waits for ever inside a call, or has panicked.
abbrev IsFinal : Phase → Type 0
IsFinal over = Unit
IsFinal hung = Unit
IsFinal crashed = Unit
IsFinal phase = ⊥

-- A thread that was asked to stop moves at most so often.
abbrev IsEnding : ℕ → Phase → Type 0
IsEnding n (closing result) = 1 ≤ n
IsEnding n (leaving result) = 2 ≤ n
IsEnding n turning = 3 ≤ n
IsEnding n (pausing wait) = 4 ≤ n
IsEnding n acting = 5 ≤ n
IsEnding n (serving requests) = length requests + 4 ≤ n
IsEnding n (asleep wait) = ⊥
IsEnding n over = Unit
IsEnding n hung = Unit
IsEnding n crashed = Unit

IsFinal-IsEnding : (phase : Phase) → IsEnding 0 phase → IsFinal phase
IsFinal-IsEnding (closing result) h = absurd (omega arith)
IsFinal-IsEnding (leaving result) h = absurd (omega arith)
IsFinal-IsEnding turning h = absurd (omega arith)
IsFinal-IsEnding (pausing wait) h = absurd (omega arith)
IsFinal-IsEnding acting h = absurd (omega arith)
IsFinal-IsEnding (serving requests) h = absurd (omega arith)
IsFinal-IsEnding (asleep wait) h = h
IsFinal-IsEnding over h = tt
IsFinal-IsEnding hung h = tt
IsFinal-IsEnding crashed h = tt

IsEnding-awake :
    (phase : Phase) (n : ℕ)
    → ((wait : Option ℕ) → phase ≢ asleep wait)
    → length (in_service phase) + 5 ≤ n
    → IsEnding n phase
IsEnding-awake (closing result) n awake h = omega arith
IsEnding-awake (leaving result) n awake h = omega arith
IsEnding-awake turning n awake h = omega arith
IsEnding-awake (pausing wait) n awake h = omega arith
IsEnding-awake acting n awake h = omega arith
IsEnding-awake (serving requests) n awake h = omega arith
IsEnding-awake (asleep wait) n awake h = awake wait refl
IsEnding-awake over n awake h = tt
IsEnding-awake hung n awake h = tt
IsEnding-awake crashed n awake h = tt

over_or_hung : (phase : Phase) → IsFinal phase → phase ≢ crashed → (phase ≡ over) ⊎ (phase ≡ hung)
over_or_hung over final alive = inl refl
over_or_hung hung final alive = inr refl
over_or_hung crashed final alive = absurd (alive refl)
over_or_hung turning final alive = absurd final
over_or_hung (serving requests) final alive = absurd final
over_or_hung acting final alive = absurd final
over_or_hung (pausing wait) final alive = absurd final
over_or_hung (asleep wait) final alive = absurd final
over_or_hung (leaving result) final alive = absurd final
over_or_hung (closing result) final alive = absurd final

module _ {E H : Type 0} where
  phase-turn_stopping : (s : System E H) → s.shared.stopping ≡ true → (turn s).phase ≡ leaving none
  unfolding turn
  phase-turn_stopping s halted = rw halted refl

  is_busy-stopping : (s : System E H) → s.shared.stopping ≡ true → is_busy s ≡ true
  unfolding is_busy
  is_busy-stopping s halted = rw halted (or_true (not (is_empty s.shared.requests)))

  phase-rest_or_turn_stopping :
      (wait : Option ℕ) (s : System E H)
      → s.shared.stopping ≡ true
      → (rest_or_turn wait s).phase ≡ turning
  unfolding rest_or_turn
  phase-rest_or_turn_stopping wait s halted = rw (is_busy-stopping s halted) refl

module _ {E H : Type 0} (host : Host E H) (rounds : ℕ) where
  -- The thread alone, for a number of steps.
  unfoldable pub thread_steps : ℕ → System E H → System E H
  thread_steps zero s = s
  thread_steps (suc n) s = thread_steps n (thread_step host rounds s)

  stopping-step_from :
      (phase : Phase) (s : System E H)
      → (step_from host rounds phase s).shared.stopping ≡ s.shared.stopping
  unfolding step_from conclude rest_or_turn
  stopping-step_from turning s = stopping-turn s
  stopping-step_from (serving []) s = refl
  stopping-step_from (serving (r ∷ rest)) s = ap (λ a. a.stopping) (shared-served r rest _ _ s)
  stopping-step_from acting s = ap (λ a. a.stopping) (shared-acted _ _ s)
  stopping-step_from (pausing wait) s = refl
  stopping-step_from (asleep wait) s = refl
  stopping-step_from (leaving result) s = ap (λ a. a.stopping) (shared-left result _ _ s)
  stopping-step_from (closing none) s = refl
  stopping-step_from (closing (some error)) s = refl
  stopping-step_from over s = refl
  stopping-step_from hung s = refl
  stopping-step_from crashed s = refl

  IsEnding-step_from :
      (n : ℕ) (phase : Phase) (s : System E H)
      → s.phase ≡ phase
      → s.shared.stopping ≡ true
      → IsEnding (suc n) phase
      → IsEnding n (step_from host rounds phase s).phase
  unfolding step_from conclude
  IsEnding-step_from n turning s e halted h =
      subst (IsEnding n) (sym (phase-turn_stopping s halted)) (omega arith)
  IsEnding-step_from n (serving []) s e halted h = omega arith
  IsEnding-step_from n (serving (r ∷ rest)) s e halted h =
      phase-served (IsEnding n) r rest _ _ s (omega arith) (λ error. omega arith) tt tt
  IsEnding-step_from n acting s e halted h =
      phase-acted (IsEnding n) _ _ s (omega arith) (λ wait. omega arith) (λ error. omega arith) tt
        tt
  IsEnding-step_from n (pausing wait) s e halted h =
      subst (IsEnding n) (sym (phase-rest_or_turn_stopping wait s halted)) (omega arith)
  IsEnding-step_from n (asleep wait) s e halted h = absurd h
  IsEnding-step_from n (leaving result) s e halted h =
      phase-left (IsEnding n) result _ _ s (omega arith) tt tt
  IsEnding-step_from n (closing none) s e halted h = tt
  IsEnding-step_from n (closing (some error)) s e halted h = tt
  IsEnding-step_from n over s e halted h = subst (IsEnding n) (sym e) tt
  IsEnding-step_from n hung s e halted h = subst (IsEnding n) (sym e) tt
  IsEnding-step_from n crashed s e halted h = subst (IsEnding n) (sym e) tt

  IsFinal-thread_steps :
      (n : ℕ) (s : System E H)
      → s.shared.stopping ≡ true
      → IsEnding n s.phase
      → IsFinal (thread_steps n s).phase
  unfolding thread_steps thread_step
  IsFinal-thread_steps zero s halted h = IsFinal-IsEnding s.phase h
  IsFinal-thread_steps (suc n) s halted h =
      IsFinal-thread_steps n (thread_step host rounds s) (stopping-step_from s.phase s ∙ halted)
        (IsEnding-step_from n s.phase s refl halted h)

  alive-thread_steps :
      (n : ℕ) (options : WatchOptions) (ls : List Label) (s : System E H)
      → Reached host rounds options ls s
      → (thread_steps n s).phase ≢ crashed
  unfolding thread_steps
  alive-thread_steps zero options ls s reached =
      λ h. subst IsAlive h (IsAlive-Reached host rounds reached)
  alive-thread_steps (suc n) options ls s reached =
      alive-thread_steps n options _ _ (then_step ls silent s _ reached (thread s))

  -- From every state that a watcher reaches in which it was asked to stop, its thread alone comes to
  -- its end, unless a call of the device never returns: it takes one step for each request that it
  -- has begun to serve, and at most 5 more.
  pub thread_steps-ends :
      (options : WatchOptions) (ls : List Label) (s : System E H) (n : ℕ)
      → Reached host rounds options ls s
      → s.shared.stopping ≡ true
      → length (in_service s.phase) + 5 ≤ n
      → ((thread_steps n s).phase ≡ over) ⊎ ((thread_steps n s).phase ≡ hung)
  thread_steps-ends options ls s n reached halted enough =
      over_or_hung (thread_steps n s).phase
        (IsFinal-thread_steps n s halted (
          IsEnding-awake s.phase n (λ wait asleep_now. absurd (awake_when_stopping wait asleep_now))
            enough))
        (alive-thread_steps n options ls s reached)
    where
      awake_when_stopping : (wait : Option ℕ) → s.phase ≡ asleep wait → ⊥
      awake_when_stopping wait e =
          let rested = Reached-rested host rounds options ls s wait reached e in
          let running = rested.1 in absurd cc
