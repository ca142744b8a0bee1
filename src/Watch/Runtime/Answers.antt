-- ===== src/Watch/Runtime/Answers.antt =====
-- The calls of an application of rust/src/watch.rs and their answers.
use hidpin.Base.{
  ℕ, ◌≡◌, refl, sym, subst, ap, ap₂, ◌∙◌, Bool, Bool-cases, inl, inr, true, Option, none, some,
  List, [], ◌∷◌, ◌++◌, map, append-cancel, append-nil, if◌then◌else◌,
}
use hidpin.Error.{Error, Result}
use hidpin.Transport.{Host}
use hidpin.Watch.Events.{Event}
use hidpin.Watch.Loop.{Connection, WatchLoop, Verdict, going, fatal, stuck, panicked}
use hidpin.Watch.Runs.Calm.{IsCalm, Calm-call, Calm-set_target}
use hidpin.Watch.Runtime.{
  Command, drive, retarget, Request, Reply, Phase, turning, serving, acting, pausing, asleep,
  leaving, closing, over, hung, crashed, System, Next, again, pause,
}
use hidpin.Watch.Runtime.Api.{WatchOptions, started, notify, woken, request_stop}
use hidpin.Watch.Runtime.Fields.{
  Taken-take, Called-submit, Started-watch, taken_state, called_state,
}
use hidpin.Watch.Runtime.Finished.{IsDrained, IsDrained-IsInvariant}
use hidpin.Watch.Runtime.Invariant.{Reached_invariant}
use hidpin.Watch.Runtime.Steps.{
  Label, silent, took, asked, tickets_of, Step, thread, wakes, takes, calls, stops, Reached,
  watched, then_step,
}
use hidpin.Watch.Runtime.Thread.{
  is_empty, turn, served, acted, left, is_busy, rest_or_turn, conclude, dropped, step_from,
  thread_step, drive_open, perform,
}

abbrev request_tickets : List Request → List ℕ
request_tickets requests = map (λ r. r.ticket) requests

abbrev pub reply_tickets : List Reply → List ℕ
reply_tickets replies = map (λ (ticket, answer). ticket) replies

-- The calls that the thread has taken but not answered yet.
abbrev served_tickets : Phase → List ℕ
served_tickets (serving requests) = request_tickets requests
served_tickets phase = []

-- The calls of a state, those that were answered first.
tickets : {E H : Type 0} → System E H → List ℕ
tickets s = reply_tickets s.replies ++ (served_tickets s.phase ++ request_tickets s.shared.requests)

-- All calls are accounted for, unless the thread waits for ever inside a call, or has panicked.
abbrev IsComplete : {E H : Type 0} → Phase → System E H → List ℕ → Type 0
IsComplete hung s ts = Unit
IsComplete crashed s ts = Unit
IsComplete phase s ts = tickets s ≡ ts

map-append : {A B : Type 0} (f : A → B) (xs ys : List A) → map f (xs ++ ys) ≡ map f xs ++ map f ys
map-append f [] ys = refl
map-append f (x ∷ xs) ys = ap (λ l. f x ∷ l) (map-append f xs ys)

tickets_of-append : (ls ms : List Label) → tickets_of (ls ++ ms) ≡ tickets_of ls ++ tickets_of ms
tickets_of-append [] ms = refl
tickets_of-append (silent ∷ ls) ms = tickets_of-append ls ms
tickets_of-append (took event ∷ ls) ms = tickets_of-append ls ms
tickets_of-append (asked ticket ∷ ls) ms = ap (λ l. ticket ∷ l) (tickets_of-append ls ms)

reply_tickets-dropped :
    (requests : List Request) → reply_tickets (dropped requests) ≡ request_tickets requests
unfolding dropped
reply_tickets-dropped [] = refl
reply_tickets-dropped (r ∷ rest) = ap (λ l. r.ticket ∷ l) (reply_tickets-dropped rest)

served_tickets-woken : (phase : Phase) → served_tickets (woken phase) ≡ served_tickets phase
unfolding woken
served_tickets-woken (asleep wait) = refl
served_tickets-woken phase = refl

served_tickets-drained :
    (requests : List Request)
    → served_tickets (if is_empty requests then acting else serving requests) ++ []
      ≡ request_tickets requests
served_tickets-drained [] = refl
served_tickets-drained (r ∷ rest) = ap (λ l. r.ticket ∷ l) (sym (append-nil (request_tickets rest)))

tickets-dropped :
    (replies : List Reply) (requests : List Request)
    → reply_tickets (replies ++ dropped requests) ++ []
      ≡ reply_tickets replies ++ request_tickets requests
tickets-dropped replies requests =
    sym (append-nil _)
    ∙ map-append (λ (ticket, a). ticket) replies (dropped requests)
    ∙ ap (λ l. reply_tickets replies ++ l) (reply_tickets-dropped requests)

module _ {E H : Type 0} where
  -- A property of the tickets is one of the state.
  IsComplete-of :
      (phase : Phase) (s : System E H) (ts : List ℕ) → tickets s ≡ ts → IsComplete phase s ts
  IsComplete-of hung s ts e = tt
  IsComplete-of crashed s ts e = tt
  IsComplete-of phase s ts e = e

  tickets-turn : (s : System E H) → s.phase ≡ turning → tickets (turn s) ≡ tickets s
  unfolding turn tickets
  tickets-turn s e = elim (Bool-cases s.shared.stopping) [
    | inl f ↦ rw f (rw e refl)
    | inr f ↦
        rw f
          (rw e (ap (λ l. reply_tickets s.replies ++ l) (served_tickets-drained s.shared.requests)))
  ]

  tickets-quiet :
      (s : System E H)
      → served_tickets s.phase ≡ []
      → tickets s ≡ reply_tickets s.replies ++ request_tickets s.shared.requests
  unfolding tickets
  tickets-quiet s e =
      ap (λ l. reply_tickets s.replies ++ (l ++ request_tickets s.shared.requests)) e

  tickets-notify : (s : System E H) → tickets (notify s) ≡ tickets s
  unfolding tickets notify
  tickets-notify s =
      ap (λ l. reply_tickets s.replies ++ (l ++ request_tickets s.shared.requests))
        (served_tickets-woken s.phase)

  tickets-taken : (rest : List Event) (s : System E H) → tickets (taken_state rest s) ≡ tickets s
  unfolding tickets
  tickets-taken rest s = tickets-notify (record s { shared = record s.shared { out = rest } })

  tickets-request_stop : (s : System E H) → tickets (request_stop s) ≡ tickets s
  unfolding tickets request_stop
  tickets-request_stop s =
      tickets-notify (record s { shared = record s.shared { stopping = true } })

  tickets-called :
      (r : Request) (s : System E H) → tickets (called_state r s) ≡ tickets s ++ (r.ticket ∷ [])
  unfolding tickets notify
  tickets-called r s =
      let answered = reply_tickets s.replies in
      let inside = served_tickets s.phase in
      let queued = request_tickets s.shared.requests in
      ap₂ (λ l m. answered ++ (l ++ m)) (served_tickets-woken s.phase)
        (map-append (λ q. q.ticket) s.shared.requests (r ∷ []))
      ∙ ap (λ l. answered ++ l) (sym (append-cancel inside queued (r.ticket ∷ [])))
      ∙ sym (append-cancel answered (inside ++ queued) (r.ticket ∷ []))

  IsComplete-woken :
      (phase : Phase) (s t : System E H) (ts us : List ℕ)
      → (tickets s ≡ ts → tickets t ≡ us)
      → IsComplete phase s ts
      → IsComplete (woken phase) t us
  unfolding woken
  IsComplete-woken hung s t ts us f x = tt
  IsComplete-woken crashed s t ts us f x = tt
  IsComplete-woken (asleep wait) s t ts us f x = f x
  IsComplete-woken phase s t ts us f x = f x

  IsComplete-served :
      (r : Request) (rest : List Request) (v : Verdict (Result (Unit {0}))) (w : WatchLoop E H)
      (s : System E H) (ts : List ℕ)
      → IsCalm v
      → s.phase ≡ serving (r ∷ rest)
      → tickets s ≡ ts
      → IsComplete (served r rest (v, w) s).phase (served r rest (v, w) s) ts
  unfolding served tickets
  IsComplete-served r rest (going answer) w s ts calm e x =
      let inside = request_tickets rest ++ request_tickets s.shared.requests in
      ap (λ l. l ++ inside) (map-append (λ (ticket, a). ticket) s.replies ((r.ticket, answer) ∷ []))
      ∙ append-cancel (reply_tickets s.replies) (r.ticket ∷ []) inside
      ∙ ap (λ p. reply_tickets s.replies ++ (served_tickets p ++ request_tickets s.shared.requests))
          (sym e)
      ∙ x
  IsComplete-served r rest (fatal error) w s ts calm e x = absurd calm
  IsComplete-served r rest stuck w s ts calm e x = tt
  IsComplete-served r rest panicked w s ts calm e x = tt

  IsComplete-acted :
      (v : Verdict Next) (w : WatchLoop E H) (s : System E H) (ts : List ℕ)
      → reply_tickets s.replies ++ request_tickets s.shared.requests ≡ ts
      → IsComplete (acted (v, w) s).phase (acted (v, w) s) ts
  unfolding acted tickets
  IsComplete-acted (going again) w s ts x = x
  IsComplete-acted (going (pause wait)) w s ts x = x
  IsComplete-acted (fatal error) w s ts x = x
  IsComplete-acted stuck w s ts x = tt
  IsComplete-acted panicked w s ts x = tt

  IsComplete-left :
      (result : Option Error) (v : Verdict (Unit {0})) (w : WatchLoop E H) (s : System E H)
      (ts : List ℕ)
      → reply_tickets s.replies ++ request_tickets s.shared.requests ≡ ts
      → IsComplete (left result (v, w) s).phase (left result (v, w) s) ts
  unfolding left tickets
  IsComplete-left result (going u) w s ts x = x
  IsComplete-left result (fatal error) w s ts x = x
  IsComplete-left result stuck w s ts x = tt
  IsComplete-left result panicked w s ts x = tt

  IsComplete-rest_or_turn :
      (wait : Option ℕ) (s : System E H) (ts : List ℕ)
      → reply_tickets s.replies ++ request_tickets s.shared.requests ≡ ts
      → IsComplete (rest_or_turn wait s).phase (rest_or_turn wait s) ts
  unfolding rest_or_turn tickets
  IsComplete-rest_or_turn wait s ts x = elim (Bool-cases (is_busy s)) [
    | inl b ↦ rw b x
    | inr b ↦ rw b x
  ]

module _ {E H : Type 0} (host : Host E H) (rounds : ℕ) where
  IsCalm-drive_open :
      (levels : List (ℕ × Bool)) (conn : Option (Connection H)) (w : WatchLoop E H)
      → IsCalm (drive_open host rounds levels conn w).0
  unfolding drive_open
  IsCalm-drive_open levels none w = tt
  IsCalm-drive_open levels (some c) w = (Calm-call _).calm w

  IsCalm-perform :
      (command : Command) (w : WatchLoop E H) → IsCalm (perform host rounds command w).0
  unfolding perform
  IsCalm-perform (drive levels) w = IsCalm-drive_open levels w.conn w
  IsCalm-perform (retarget config) w = (Calm-set_target host rounds config).calm w

  IsComplete-step_from :
      (phase : Phase) (s : System E H) (ts : List ℕ)
      → s.phase ≡ phase
      → IsComplete phase s ts
      → let t = step_from host rounds phase s in IsComplete t.phase t ts
  unfolding step_from conclude
  IsComplete-step_from turning s ts e x = IsComplete-of _ (turn s) ts (tickets-turn s e ∙ x)
  IsComplete-step_from (serving []) s ts e x =
      tickets-quiet (record s { phase = turning }) refl
      ∙ sym (tickets-quiet s (ap served_tickets e))
      ∙ x
  IsComplete-step_from (serving (r ∷ rest)) s ts e x =
      IsComplete-served r rest _ _ s ts (IsCalm-perform r.command s.loop) e x
  IsComplete-step_from acting s ts e x =
      IsComplete-acted _ _ s ts (sym (tickets-quiet s (ap served_tickets e)) ∙ x)
  IsComplete-step_from (pausing wait) s ts e x =
      IsComplete-rest_or_turn wait s ts (sym (tickets-quiet s (ap served_tickets e)) ∙ x)
  IsComplete-step_from (asleep wait) s ts e x = subst (λ p. IsComplete p s ts) (sym e) x
  IsComplete-step_from (leaving result) s ts e x =
      IsComplete-left result _ _ s ts (sym (tickets-quiet s (ap served_tickets e)) ∙ x)
  IsComplete-step_from (closing none) s ts e x =
      tickets-quiet _ refl
      ∙ tickets-dropped s.replies s.shared.requests
      ∙ sym (tickets-quiet s (ap served_tickets e))
      ∙ x
  IsComplete-step_from (closing (some error)) s ts e x =
      tickets-quiet _ refl
      ∙ tickets-dropped s.replies s.shared.requests
      ∙ sym (tickets-quiet s (ap served_tickets e))
      ∙ x
  IsComplete-step_from over s ts e x = subst (λ p. IsComplete p s ts) (sym e) x
  IsComplete-step_from hung s ts e x = subst (λ p. IsComplete p s ts) (sym e) tt
  IsComplete-step_from crashed s ts e x = subst (λ p. IsComplete p s ts) (sym e) tt

  IsComplete-Step :
      {s t : System E H} {l : Label} (ts : List ℕ)
      → Step host rounds s l t
      → IsComplete s.phase s ts
      → IsComplete t.phase t (ts ++ tickets_of (l ∷ []))
  unfolding thread_step notify request_stop
  IsComplete-Step ts (thread s) x =
      subst (λ us. let t = step_from host rounds s.phase s in IsComplete t.phase t us)
        (append-nil ts) (IsComplete-step_from s.phase s ts refl x)
  IsComplete-Step ts (wakes s) x =
      IsComplete-woken s.phase s _ ts _ (λ e. tickets-notify s ∙ e ∙ append-nil ts) x
  IsComplete-Step ts (takes deadline now event s t h) x =
      let y = Taken-take deadline now event s t h in
      subst (λ u. IsComplete u.phase u (ts ++ [])) (sym y.after)
        (IsComplete-woken s.phase s _ ts _ (λ e. tickets-taken y.rest s ∙ e ∙ append-nil ts) x)
  IsComplete-Step ts (calls ticket command s t h) x =
      subst (λ u. IsComplete u.phase u (ts ++ (ticket ∷ [])))
        (sym (Called-submit ticket command s t h).after)
        (IsComplete-woken s.phase s _ ts _
          (λ e. tickets-called _ s ∙ ap (λ l. l ++ (ticket ∷ [])) e) x)
  IsComplete-Step ts (stops s) x =
      IsComplete-woken s.phase s _ ts _ (λ e. tickets-request_stop s ∙ e ∙ append-nil ts) x

  IsComplete-Reached :
      {options : WatchOptions} {ls : List Label} {s : System E H}
      → Reached host rounds options ls s
      → IsComplete s.phase s (tickets_of ls)
  unfolding started tickets
  IsComplete-Reached {options} (watched vars t env s h) =
      subst (λ u. IsComplete u.phase u []) (sym (Started-watch vars options t env s h)) refl
  IsComplete-Reached (then_step ls l r s reached step) =
      subst (IsComplete s.phase s) (sym (tickets_of-append ls (l ∷ [])))
        (IsComplete-Step (tickets_of ls) step (IsComplete-Reached reached))

  -- Once the thread of a watcher has finished, the calls that were accepted have one answer each, and
  -- the answers are in the order of the calls.
  pub reply_tickets-Reached :
      (options : WatchOptions) (ls : List Label) (s : System E H)
      → Reached host rounds options ls s
      → s.phase ≡ over
      → reply_tickets s.replies ≡ tickets_of ls
  reply_tickets-Reached options ls s reached e =
      let drained =
        subst (λ p. IsDrained p s.shared) e
          (Reached_invariant host rounds (IsDrained-IsInvariant host rounds) reached) in
      append-nil (reply_tickets s.replies)
      ∙ ap (λ l. reply_tickets s.replies ++ request_tickets l) (sym drained.1)
      ∙ sym (tickets-quiet s (ap served_tickets e))
      ∙ subst (λ p. IsComplete p s (tickets_of ls)) e (IsComplete-Reached reached)
