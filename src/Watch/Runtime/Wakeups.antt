-- ===== src/Watch/Runtime/Wakeups.antt =====
-- The thread of rust/src/watch.rs and its condition variable: no wake-up is lost.
use hidpin.Base.{
  ℕ, ◌≤◌, ◌≡◌, ◌⊎◌, refl, sym, subst, ◌&&◌, ◌||◌, not, Bool, inl, inr, true, false, Option, none,
  some, List, [], ◌∷◌, ltb, length, arith, if◌then◌else◌,
}
use hidpin.Transport.{Host}
use hidpin.Watch.Events.{Event}
use hidpin.Watch.Runtime.{
  out_capacity, Request, Phase, turning, serving, acting, pausing, asleep, leaving, closing, over,
  hung, crashed, System,
}
use hidpin.Watch.Runtime.Api.{WatchOptions, started, notify, woken, request_stop}
use hidpin.Watch.Runtime.Fields.{phase-turn, phase-served, phase-acted, phase-left}
use hidpin.Watch.Runtime.Invariant.{IsInvariant, Reached_invariant}
use hidpin.Watch.Runtime.Steps.{Label, Reached}
use hidpin.Watch.Runtime.Thread.{
  is_empty, turn, is_busy, rest_or_turn, conclude, step_from, thread_step,
}

module _ {E H : Type 0} where
  -- A thread that sleeps has nothing to do.
  abbrev IsRested : Phase → System E H → Type 0
  IsRested (asleep wait) s = is_busy s ≡ false
  IsRested phase s = Unit

  IsRested-woken : (phase : Phase) (s : System E H) → IsRested (woken phase) s
  unfolding woken
  IsRested-woken (asleep wait) s = tt
  IsRested-woken phase s = tt

  IsRested-tested :
      (busy : Bool) (wait : Option ℕ) (s t : System E H)
      → is_busy t ≡ busy
      → IsRested (if busy then turning else asleep wait) t
  IsRested-tested true wait s t h = tt
  IsRested-tested false wait s t h = h

  IsRested-rest_or_turn :
      (wait : Option ℕ) (s : System E H) → let t = rest_or_turn wait s in IsRested t.phase t
  unfolding rest_or_turn is_busy
  IsRested-rest_or_turn wait s = IsRested-tested (is_busy s) wait s (rest_or_turn wait s) refl

  -- What a test that finds nothing to do has found.
  pub is_busy-false :
      (s : System E H)
      → is_busy s ≡ false
      → (s.shared.requests ≡ [])
        × (s.shared.stopping ≡ false)
        × ((s.loop.pending ≡ []) ⊎ (out_capacity ≤ length s.shared.out))
  unfolding is_busy
  is_busy-false s h = idle_of s.shared.requests s.shared.stopping s.loop.pending s.shared.out h
    where
      idle_of :
          (requests : List Request) (stopping : Bool) (pending out : List Event)
          → (not (is_empty requests)
              || (stopping || (not (is_empty pending) && ltb (length out) out_capacity)))
            ≡ false
          → (requests ≡ []) × (stopping ≡ false) × ((pending ≡ []) ⊎ (out_capacity ≤ length out))
      idle_of (r ∷ rs) stopping pending out h = absurd cc
      idle_of [] true pending out h = absurd cc
      idle_of [] false [] out h = (refl, refl, inl refl)
      idle_of [] false (e ∷ es) out h = (refl, refl, inr (ground arith))

module _ {E H : Type 0} (host : Host E H) (rounds : ℕ) where
  IsRested-step_from :
      (phase : Phase) (s : System E H)
      → s.phase ≡ phase
      → IsRested phase s
      → let t = step_from host rounds phase s in IsRested t.phase t
  unfolding step_from conclude
  IsRested-step_from turning s e rested =
      phase-turn (λ p. IsRested p (turn s)) s (λ e'. tt) tt (λ requests. tt)
  IsRested-step_from (serving []) s e rested = tt
  IsRested-step_from (serving (r ∷ rest)) s e rested =
      phase-served (λ p. IsRested p (step_from host rounds (serving (r ∷ rest)) s)) r rest _ _ s tt
        (λ error. tt) tt tt
  IsRested-step_from acting s e rested =
      phase-acted (λ p. IsRested p (step_from host rounds acting s)) _ _ s tt (λ wait. tt)
        (λ error. tt) tt tt
  IsRested-step_from (pausing wait) s e rested = IsRested-rest_or_turn wait s
  IsRested-step_from (asleep wait) s e rested = subst (λ p. IsRested p s) (sym e) rested
  IsRested-step_from (leaving result) s e rested =
      phase-left (λ p. IsRested p (step_from host rounds (leaving result) s)) result _ _ s tt tt tt
  IsRested-step_from (closing none) s e rested = tt
  IsRested-step_from (closing (some error)) s e rested = tt
  IsRested-step_from over s e rested = subst (λ p. IsRested p s) (sym e) tt
  IsRested-step_from hung s e rested = subst (λ p. IsRested p s) (sym e) tt
  IsRested-step_from crashed s e rested = subst (λ p. IsRested p s) (sym e) tt

  IsRested-IsInvariant : IsInvariant host rounds (λ s. IsRested s.phase s)
  unfolding thread_step started notify request_stop
  IsRested-IsInvariant = record {
    at_start = λ options t env. tt;
    by_thread = λ s rested. IsRested-step_from s.phase s refl rested;
    by_wake = λ s rested. IsRested-woken s.phase _;
    by_take = λ event rest s first rested. IsRested-woken s.phase _;
    by_call = λ r s unfinished running rested. IsRested-woken s.phase _;
    by_stop = λ s rested. IsRested-woken s.phase _;
  }

  -- In every state that a watcher reaches in which its thread sleeps, no request is queued, nobody
  -- asked it to stop, and it has no event to hand over, unless 16 already wait for the application.
  pub Reached-rested :
      (options : WatchOptions) (ls : List Label) (s : System E H) (wait : Option ℕ)
      → Reached host rounds options ls s
      → s.phase ≡ asleep wait
      → (s.shared.requests ≡ [])
        × (s.shared.stopping ≡ false)
        × ((s.loop.pending ≡ []) ⊎ (out_capacity ≤ length s.shared.out))
  Reached-rested options ls s wait reached h =
      is_busy-false s
        (subst (λ p. IsRested p s) h (Reached_invariant host rounds IsRested-IsInvariant reached))
