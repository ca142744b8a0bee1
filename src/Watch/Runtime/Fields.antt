-- ===== src/Watch/Runtime/Fields.antt =====
-- What the steps of the watcher of rust/src/watch.rs leave of the state that is shared.
use hidpin.Base.{
  ℕ, ◌≡◌, ◌≢◌, refl, sym, ap, Bool, Bool-cases, inl, inr, true, false, ◌||◌, Option, none, some,
  List, [], ◌∷◌, ◌++◌, if◌then◌else◌, leb, ◌∙◌,
}
use hidpin.Base.Text.{Text}
use hidpin.Error.{Error, Result, ok, err, watcher_closed}
use hidpin.Watch.Events.{Event}
use hidpin.Watch.Loop.{WatchLoop, Verdict, going, fatal, stuck, panicked}
use hidpin.Watch.Runtime.{
  Command, Request, System, Phase, turning, serving, acting, pausing, leaving, closing, hung,
  crashed, Next, again, pause,
}
use hidpin.Watch.Runtime.Api.{
  got, ended, time_left, take_from, take, submit, notify, WatchOptions, watch_checked, watch,
  started,
}
use hidpin.Watch.Runtime.Thread.{is_empty, turn, served, acted, left}

got_injective : {d e : Event} → got d ≡ got e → d ≡ e
got_injective h = cc

phase-drained :
    (P : Phase → Type 0) (requests : List Request)
    → P acting
    → ((requests : List Request) → P (serving requests))
    → P (if is_empty requests then acting else serving requests)
phase-drained P [] onward serves = onward
phase-drained P (r ∷ rest) onward serves = serves (r ∷ rest)

time_left≢got : (deadline : Option ℕ) (now : ℕ) (event : Event) → time_left deadline now ≢ got event
unfolding time_left
time_left≢got none now event e = cc
time_left≢got (some deadline) now event e = elim (Bool-cases (leb deadline now)) [
  | inl f ↦ cc
  | inr f ↦ cc
]

ended≢got :
    (test : Bool) (deadline : Option ℕ) (now : ℕ) (event : Event)
    → (if test then ended else time_left deadline now) ≢ got event
ended≢got true deadline now event e = cc
ended≢got false deadline now event e = time_left≢got deadline now event e

module _ {E H : Type 0} where
  pub shared-served :
      (r : Request) (rest : List Request) (v : Verdict (Result (Unit {0}))) (w : WatchLoop E H)
      (s : System E H)
      → (served r rest (v, w) s).shared ≡ s.shared
  unfolding served
  shared-served r rest (going answer) w s = refl
  shared-served r rest (fatal e) w s = refl
  shared-served r rest stuck w s = refl
  shared-served r rest panicked w s = refl

  pub shared-acted :
      (v : Verdict Next) (w : WatchLoop E H) (s : System E H) → (acted (v, w) s).shared ≡ s.shared
  unfolding acted
  shared-acted (going again) w s = refl
  shared-acted (going (pause wait)) w s = refl
  shared-acted (fatal e) w s = refl
  shared-acted stuck w s = refl
  shared-acted panicked w s = refl

  pub shared-left :
      (result : Option Error) (v : Verdict (Unit {0})) (w : WatchLoop E H) (s : System E H)
      → (left result (v, w) s).shared ≡ s.shared
  unfolding left
  shared-left result (going u) w s = refl
  shared-left result (fatal e) w s = refl
  shared-left result stuck w s = refl
  shared-left result panicked w s = refl

  pub loop-served :
      (r : Request) (rest : List Request) (v : Verdict (Result (Unit {0}))) (w : WatchLoop E H)
      (s : System E H)
      → (served r rest (v, w) s).loop ≡ w
  unfolding served
  loop-served r rest (going answer) w s = refl
  loop-served r rest (fatal e) w s = refl
  loop-served r rest stuck w s = refl
  loop-served r rest panicked w s = refl

  pub loop-acted :
      (v : Verdict Next) (w : WatchLoop E H) (s : System E H) → (acted (v, w) s).loop ≡ w
  unfolding acted
  loop-acted (going again) w s = refl
  loop-acted (going (pause wait)) w s = refl
  loop-acted (fatal e) w s = refl
  loop-acted stuck w s = refl
  loop-acted panicked w s = refl

  pub loop-left :
      (result : Option Error) (v : Verdict (Unit {0})) (w : WatchLoop E H) (s : System E H)
      → (left result (v, w) s).loop ≡ w
  unfolding left
  loop-left result (going u) w s = refl
  loop-left result (fatal e) w s = refl
  loop-left result stuck w s = refl
  loop-left result panicked w s = refl

  -- The phases that a request, an act and the way out lead to.
  pub phase-served :
      (P : Phase → Type 0) (r : Request) (rest : List Request) (v : Verdict (Result (Unit {0})))
      (w : WatchLoop E H) (s : System E H)
      → P (serving rest)
      → ((e : Error) → P (leaving (some e)))
      → P hung
      → P crashed
      → P (served r rest (v, w) s).phase
  unfolding served
  phase-served P r rest (going answer) w s onward out stays falls = onward
  phase-served P r rest (fatal e) w s onward out stays falls = out e
  phase-served P r rest stuck w s onward out stays falls = stays
  phase-served P r rest panicked w s onward out stays falls = falls

  pub phase-acted :
      (P : Phase → Type 0) (v : Verdict Next) (w : WatchLoop E H) (s : System E H)
      → P turning
      → ((wait : Option ℕ) → P (pausing wait))
      → ((e : Error) → P (leaving (some e)))
      → P hung
      → P crashed
      → P (acted (v, w) s).phase
  unfolding acted
  phase-acted P (going again) w s onward rests out stays falls = onward
  phase-acted P (going (pause wait)) w s onward rests out stays falls = rests wait
  phase-acted P (fatal e) w s onward rests out stays falls = out e
  phase-acted P stuck w s onward rests out stays falls = stays
  phase-acted P panicked w s onward rests out stays falls = falls

  pub phase-left :
      (P : Phase → Type 0) (result : Option Error) (v : Verdict (Unit {0})) (w : WatchLoop E H)
      (s : System E H)
      → P (closing result)
      → P hung
      → P crashed
      → P (left result (v, w) s).phase
  unfolding left
  phase-left P result (going u) w s onward stays falls = onward
  phase-left P result (fatal e) w s onward stays falls = onward
  phase-left P result stuck w s onward stays falls = stays
  phase-left P result panicked w s onward stays falls = falls

  pub phase-turn :
      (P : Phase → Type 0) (s : System E H)
      → (s.shared.stopping ≡ true → P (leaving none))
      → P acting
      → ((requests : List Request) → P (serving requests))
      → P (turn s).phase
  unfolding turn
  phase-turn P s out onward serves = elim (Bool-cases s.shared.stopping) [
    | inl e ↦ rw e (out e)
    | inr e ↦ rw e (phase-drained P s.shared.requests onward serves)
  ]

  -- The state after an event was taken.
  abbrev pub taken_state : List Event → System E H → System E H
  taken_state out s = notify (record s { shared = record s.shared { out = out } })

  -- The state after a call.
  abbrev pub called_state : Request → System E H → System E H
  called_state r s =
      notify (record s { shared = record s.shared { requests = s.shared.requests ++ (r ∷ []) } })

  -- What is known of a state in which an event was taken.
  pub record Taken (event : Event) (s t : System E H) : Type 0 where
    pub rest : List Event
    pub first : s.shared.out ≡ event ∷ rest
    pub after : t ≡ taken_state rest s

  Taken-take_from :
      (out : List Event) (deadline : Option ℕ) (now : ℕ) (event : Event) (s t : System E H)
      → s.shared.out ≡ out
      → take_from out deadline now s ≡ (got event, t)
      → Taken event s t
  unfolding take_from
  Taken-take_from [] deadline now event s t e h =
      absurd (ended≢got s.shared.finished deadline now event (ap (λ p. p.0) h))
  Taken-take_from (first ∷ out) deadline now event s t e h = record {
    rest = out;
    first = e ∙ ap (λ x. x ∷ out) (got_injective (ap (λ p. p.0) h));
    after = sym (ap (λ p. p.1) h);
  }

  pub Taken-take :
      (deadline : Option ℕ) (now : ℕ) (event : Event) (s t : System E H)
      → take deadline now s ≡ (got event, t)
      → Taken event s t
  unfolding take
  Taken-take deadline now event s t h = Taken-take_from s.shared.out deadline now event s t refl h

  pub record Called (ticket : ℕ) (command : Command) (s t : System E H) : Type 0 where
    pub unfinished : s.shared.finished ≡ false
    pub running : s.shared.stopping ≡ false
    pub after : t ≡ called_state (record { ticket = ticket; command = command }) s

  Called-tested :
      (finished stopping : Bool) (ticket : ℕ) (command : Command) (s t u : System E H)
      → s.shared.finished ≡ finished
      → s.shared.stopping ≡ stopping
      → u ≡ called_state (record { ticket = ticket; command = command }) s
      → (if finished || stopping then err watcher_closed else ok u) ≡ ok t
      → Called ticket command s t
  Called-tested true stopping ticket command s t u e f g h = absurd cc
  Called-tested false true ticket command s t u e f g h = absurd cc
  Called-tested false false ticket command s t u e f g h = record {
    unfinished = e;
    running = f;
    after = cc;
  }

  pub Called-submit :
      (ticket : ℕ) (command : Command) (s t : System E H)
      → submit ticket command s ≡ ok t
      → Called ticket command s t
  unfolding submit
  Called-submit ticket command s t h =
      Called-tested s.shared.finished s.shared.stopping ticket command s t _ refl refl refl h

  Started-checked :
      (options : WatchOptions) (t : ℕ) (env : E) (r : Result (Unit {0})) (s : System E H)
      → watch_checked options t env r ≡ ok s
      → s ≡ started options t env
  unfolding watch_checked
  Started-checked options t env (err e) s h = absurd cc
  Started-checked options t env (ok u) s h = cc

  pub Started-watch :
      (vars : Text → Option Text) (options : WatchOptions) (t : ℕ) (env : E) (s : System E H)
      → watch vars options t env ≡ ok s
      → s ≡ started options t env
  unfolding watch
  Started-watch vars options t env s h = Started-checked options t env _ s h
