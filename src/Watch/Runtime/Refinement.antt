-- ===== src/Watch/Runtime/Refinement.antt =====
-- The delivery of events by the watcher of rust/src/watch.rs implements a queue.
use hidpin.Base.{
  ℕ, ◌≡◌, refl, sym, subst, ap, ap₂, ◌∙◌, Bool, Bool-cases, inl, inr, true, none, some, List, [],
  ◌∷◌, ◌++◌, append-cancel, append-nil, ltb, length, drop,
}
use hidpin.Transport.{Host}
use hidpin.Watch.Events.{Event}
use hidpin.Watch.Loop.{WatchLoop}
use hidpin.Watch.Connect.{drop_connection}
use hidpin.Watch.Runs.{Extends, Extends-Ends}
use hidpin.Watch.Runs.Calls.{AnyConn-IsSteady}
use hidpin.Watch.Runs.Restore.{Runs_drop_connection}
use hidpin.Watch.Runtime.{
  out_capacity, Phase, turning, serving, acting, pausing, asleep, leaving, closing, over, hung,
  crashed, System,
}
use hidpin.Watch.Runtime.Api.{WatchOptions, started, notify, request_stop}
use hidpin.Watch.Runtime.Fields.{
  Taken-take, Called-submit, called_state, Started-watch, shared-served, shared-acted, shared-left,
  loop-served, loop-acted, loop-left, taken_state,
}
use hidpin.Watch.Runtime.Invariant.{Reached_invariant}
use hidpin.Watch.Runtime.Safety.{Safe-perform, Safe-act}
use hidpin.Watch.Runtime.Steps.{
  Label, Step, thread, wakes, takes, calls, stops, Reached, watched, then_step,
}
use hidpin.Watch.Runtime.Thread.{
  hand_over, turn, rest_or_turn, conclude, step_from, thread_step, perform, act,
}
use hidpin.Watch.Runtime.Leaving.{IsAsked, IsAsked-IsInvariant}
use hidpin.Watch.Runtime.Queue.{
  QueueStep, push, pop, clear, pushes, pops, halts, clears, QueueReached, starts, then_queue,
  queue_of, emitted_by, thread_op, op_of, ops_of,
}

append-hand_over :
    (out pending : List Event)
    → (hand_over out pending).0 ++ (hand_over out pending).1 ≡ out ++ pending
unfolding hand_over
append-hand_over out [] = refl
append-hand_over out (e ∷ es) = elim (Bool-cases (ltb (length out) out_capacity)) [
  | inl h ↦ rw h (append-hand_over (out ++ (e ∷ [])) es ∙ append-cancel out (e ∷ []) es)
  | inr h ↦ rw h refl
]

drop-append : {A : Type 0} (xs ys : List A) → drop (length xs) (xs ++ ys) ≡ ys
drop-append [] ys = refl
drop-append (x ∷ xs) ys = drop-append xs ys

module _ {E H : Type 0} where
  -- These events came to the end of the queue, and nothing else changed.
  record Grew (more : List Event) (s t : System E H) : Type 0 where
    pub events : t.shared.out ++ t.loop.pending ≡ (s.shared.out ++ s.loop.pending) ++ more
    pub same : t.shared.stopping ≡ s.shared.stopping

  QueueStep-Grew :
      (more : List Event) (s t : System E H)
      → Grew more s t
      → QueueStep (queue_of s) (push more) (queue_of t)
  unfolding queue_of
  QueueStep-Grew more s t x =
      subst {A = List Event × Bool}
        (λ p. QueueStep (queue_of s) (push more) (record { events = p.0; stopping = p.1 }))
        {x = ((s.shared.out ++ s.loop.pending) ++ more, s.shared.stopping)}
        {y = (t.shared.out ++ t.loop.pending, t.shared.stopping)}
        (ap₂ (λ l b. (l, b)) (sym x.events) (sym x.same)) (pushes more (queue_of s))

  Grew-same : (s t : System E H) → t.shared ≡ s.shared → t.loop ≡ s.loop → Grew [] s t
  Grew-same s t same_shared same_loop = record {
    events = ap₂ (λ a w. a.out ++ w.pending) same_shared same_loop ∙ append-nil _;
    same = ap (λ a. a.stopping) same_shared;
  }

  -- An operation that only appends events appends those that it emitted.
  emitted_by-Extends : (v w : WatchLoop E H) (x : Extends v w) → emitted_by v w ≡ x.more
  unfolding emitted_by
  emitted_by-Extends v w x = ap (drop (length v.pending)) x.appended ∙ drop-append v.pending x.more

  Grew-Extends :
      (s t : System E H) (w : WatchLoop E H)
      → t.shared ≡ s.shared
      → t.loop ≡ w
      → Extends s.loop w
      → Grew (emitted_by s.loop w) s t
  Grew-Extends s t w same_shared same_loop x = record {
    events =
        ap₂ (λ a v. a.out ++ v.pending) same_shared same_loop
        ∙ (ap (λ l. s.shared.out ++ l)
              (x.appended ∙ ap (λ l. s.loop.pending ++ l) (sym (emitted_by-Extends s.loop w x)))
            ∙ sym (append-cancel s.shared.out s.loop.pending (emitted_by s.loop w)));
    same = ap (λ a. a.stopping) same_shared;
  }

  Grew-turn : (s : System E H) → Grew [] s (turn s)
  unfolding turn
  Grew-turn s =
      let moved = append-hand_over s.shared.out s.loop.pending ∙ append-nil _ in
      elim (Bool-cases s.shared.stopping) [
        | inl e ↦ rw e record { events = moved; same = refl }
        | inr e ↦ rw e record { events = moved; same = refl }
      ]

  QueueStep-cleared :
      (s t : System E H)
      → s.shared.stopping ≡ true
      → t.shared.stopping ≡ s.shared.stopping
      → t.shared.out ++ t.loop.pending ≡ []
      → QueueStep (queue_of s) clear (queue_of t)
  unfolding queue_of
  QueueStep-cleared s t halted same empty =
      rw same (rw empty (rw halted (clears (s.shared.out ++ s.loop.pending))))

  pushed_none :
      (t s : System E H)
      → t.shared.out ++ t.loop.pending ≡ s.shared.out ++ s.loop.pending
      → t.shared.stopping ≡ s.shared.stopping
      → QueueStep (queue_of s) (push []) (queue_of t)
  pushed_none t s same_events same =
      QueueStep-Grew [] s t (record { events = same_events ∙ append-nil _; same = same })

module _ {E H : Type 0} (host : Host E H) (rounds : ℕ) where
  QueueStep-step_from :
      (phase : Phase) (s : System E H)
      → IsAsked phase s.shared.stopping
      → QueueStep
          (queue_of s)
          (thread_op host rounds phase s)
          (queue_of (step_from host rounds phase s))
  unfolding step_from conclude rest_or_turn thread_op
  QueueStep-step_from turning s x = QueueStep-Grew [] s _ (Grew-turn s)
  QueueStep-step_from (serving []) s x = QueueStep-Grew [] s _ (Grew-same s _ refl refl)
  QueueStep-step_from (serving (r ∷ rest)) s x =
      let (v, w) = perform host rounds r.command s.loop in
      QueueStep-Grew _ s _ (
        Grew-Extends s _ w (shared-served r rest v w s) (loop-served r rest v w s)
          (Extends-Ends s.loop w _ v ((Safe-perform host rounds r.command).run s.loop tt)))
  QueueStep-step_from acting s x =
      let (v, w) = act host rounds s.loop in
      QueueStep-Grew _ s _ (
        Grew-Extends s _ w (shared-acted v w s) (loop-acted v w s)
          (Extends-Ends s.loop w _ v ((Safe-act host rounds).run s.loop tt)))
  QueueStep-step_from (pausing wait) s x = QueueStep-Grew [] s _ (Grew-same s _ refl refl)
  QueueStep-step_from (asleep wait) s x = QueueStep-Grew [] s _ (Grew-same s _ refl refl)
  QueueStep-step_from (leaving result) s x =
      let (v, w) = drop_connection host s.loop in
      QueueStep-Grew _ s _ (
        Grew-Extends s _ w (shared-left result v w s) (loop-left result v w s) (
          Extends-Ends s.loop w _ v
            ((Runs_drop_connection host (AnyConn-IsSteady H)).run s.loop tt)))
  QueueStep-step_from (closing none) s x = QueueStep-cleared s _ x refl refl
  QueueStep-step_from (closing (some error)) s x =
      QueueStep-Grew [] s _ (record { events = refl; same = refl })
  QueueStep-step_from over s x = QueueStep-Grew [] s _ (Grew-same s _ refl refl)
  QueueStep-step_from hung s x = QueueStep-Grew [] s _ (Grew-same s _ refl refl)
  QueueStep-step_from crashed s x = QueueStep-Grew [] s _ (Grew-same s _ refl refl)

  QueueStep-Step :
      {s t : System E H} {l : Label}
      → IsAsked s.phase s.shared.stopping
      → (step : Step host rounds s l t)
      → QueueStep (queue_of s) (op_of host rounds step) (queue_of t)
  unfolding thread_step notify request_stop queue_of op_of
  QueueStep-Step x (thread s) = QueueStep-step_from s.phase s x
  QueueStep-Step x (wakes s) = QueueStep-Grew [] s (notify s) (Grew-same s _ refl refl)
  QueueStep-Step x (takes deadline now event s t h) =
      let y = Taken-take deadline now event s t h in
      subst (λ u. QueueStep (queue_of s) (pop event) (queue_of u)) (sym y.after)
        (subst
          (λ l.
            QueueStep (record { events = l ++ s.loop.pending; stopping = s.shared.stopping })
              (pop event) (queue_of (taken_state y.rest s)))
          (sym y.first) (pops event (y.rest ++ s.loop.pending) s.shared.stopping))
  QueueStep-Step x (calls ticket command s t h) =
      subst (λ u. QueueStep (queue_of s) (push []) (queue_of u))
        (sym (Called-submit ticket command s t h).after)
        (pushed_none (called_state (record { ticket = ticket; command = command }) s) s refl refl)
  QueueStep-Step x (stops s) = halts (queue_of s)

  QueueReached-started :
      (options : WatchOptions) (t : ℕ) (env : E)
      → QueueReached [] (queue_of (started {H = H} options t env))
  unfolding started queue_of
  QueueReached-started options t env = starts

  -- Whatever steps lead a watcher to a state, the operations of these steps lead the queue to the
  -- events that are out and those that are pending: what the operations of `WatchLoop` emitted comes
  -- to the application in that order, and none is lost, doubled or overtaken before a stop is asked
  -- for.
  pub Reached-QueueReached :
      {options : WatchOptions} {ls : List Label} {s : System E H}
      → (reached : Reached host rounds options ls s)
      → QueueReached (ops_of host rounds reached) (queue_of s)
  unfolding ops_of
  Reached-QueueReached {options} (watched vars t env s h) =
      subst (λ u. QueueReached [] (queue_of u)) (sym (Started-watch vars options t env s h))
        (QueueReached-started options t env)
  Reached-QueueReached (then_step ls l r s reached step) =
      then_queue (ops_of host rounds reached) (op_of host rounds step) (queue_of r) (queue_of s)
        (Reached-QueueReached reached)
        (QueueStep-Step (Reached_invariant host rounds (IsAsked-IsInvariant host rounds) reached)
          step)
