-- ===== src/Watch/Runtime/Invariant.antt =====
-- How to show that every state that a watcher of rust/src/watch.rs reaches has a property: the
-- state that `watch` starts has it, and the moves of the thread and of the application keep it.
use hidpin.Base.{ℕ, ◌≡◌, sym, subst, false, List, ◌∷◌}
use hidpin.Transport.{Host}
use hidpin.Watch.Events.{Event}
use hidpin.Watch.Runtime.{Request, System}
use hidpin.Watch.Runtime.Api.{WatchOptions, started, notify, request_stop}
use hidpin.Watch.Runtime.Fields.{
  taken_state, called_state, Taken-take, Called-submit, Started-watch,
}
use hidpin.Watch.Runtime.Steps.{
  Label, Step, thread, wakes, takes, calls, stops, Reached, watched, then_step,
}
use hidpin.Watch.Runtime.Thread.{thread_step}

module _ {E H : Type 0} (host : Host E H) (rounds : ℕ) where
  pub record IsInvariant (P : System E H → Type 0) : Type 0 where
    pub at_start : (options : WatchOptions) (t : ℕ) (env : E) → P (started options t env)
    pub by_thread : (s : System E H) → P s → P (thread_step host rounds s)
    pub by_wake : (s : System E H) → P s → P (notify s)
    pub by_take :
        (event : Event) (rest : List Event) (s : System E H)
        → s.shared.out ≡ event ∷ rest
        → P s
        → P (taken_state rest s)
    pub by_call :
        (r : Request) (s : System E H)
        → s.shared.finished ≡ false
        → s.shared.stopping ≡ false
        → P s
        → P (called_state r s)
    pub by_stop : (s : System E H) → P s → P (request_stop s)

  module _ {P : System E H → Type 0} (invariant : IsInvariant P) where
    Step_invariant : {s t : System E H} {l : Label} → Step host rounds s l t → P s → P t
    Step_invariant (thread s) p = invariant.by_thread s p
    Step_invariant (wakes s) p = invariant.by_wake s p
    Step_invariant (takes deadline now event s t h) p =
        let x = Taken-take deadline now event s t h in
        subst P (sym x.after) (invariant.by_take event x.rest s x.first p)
    Step_invariant (calls ticket command s t h) p =
        let x = Called-submit ticket command s t h in
        subst P (sym x.after) (invariant.by_call _ s x.unfinished x.running p)
    Step_invariant (stops s) p = invariant.by_stop s p

    pub Reached_invariant :
        {options : WatchOptions} {ls : List Label} {s : System E H}
        → Reached host rounds options ls s
        → P s
    Reached_invariant {options} (watched vars t env s h) =
        subst P (sym (Started-watch vars options t env s h)) (invariant.at_start options t env)
    Reached_invariant (then_step ls l r s reached step) =
        Step_invariant step (Reached_invariant reached)
