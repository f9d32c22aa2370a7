-- ===== src/Control/Retry.antt =====
-- What the outcome of `Resume` and `Suspend` of cmd/egress-broker/ateapi.go means for the session.
use substrate_ws_poc.Prelude.{
  ℕ, ◌<◌, [], ◌∷◌, ◌++◌, Bool, true, false, not, Option, none, some, ◌≡◌, ◌⊎◌, inl, inr, refl,
  arith, nat_eq, ◌==◌, is_none, Option-cases, List, All, subst, >>=-eq-some,
}
use substrate_ws_poc.Prelude.Bytes.{Bytes, bytes_eq}
use substrate_ws_poc.Actor.{ActorRef, to_string}
use substrate_ws_poc.SocketMode.{Json}
use substrate_ws_poc.Session.State.{is_positive, Config, Session, Task, done, suspend, resume}
use substrate_ws_poc.Session.Ops.{
  note_activity, on_idle, suspend_failed, begin_forward, end_forward, ensure_started, resume_failed,
  close, ack, attach, arm_fallback, arm_idle, on_event,
}
use substrate_ws_poc.Session.Sections.{Section, detaches, fails_suspend, delivers, receives, exec}
use substrate_ws_poc.Session.Cases.{
  skipped, stamped, deliver_buffered-Delivery, delivered, held, left, on_event-Arrival,
}
use substrate_ws_poc.Session.Runs.{run_sections}
use substrate_ws_poc.Session.Latch.{KeepsSuspending}
use substrate_ws_poc.Control.Resume as Control

-- One of the seven calls is accepted, and all before it were aborted.
pub record IsAccepted (answers : ℕ → Control.Answer) : Type 0 where
  pub at : ℕ
  pub below : at < 7
  pub before : (i : ℕ) → i < at → answers i ≡ Control.aborted
  pub taken : answers at ≡ Control.accepted

tried-not_met : (a : Control.Answer) → Control.tried a ≡ Control.is_not_met → a ≡ Control.aborted
unfolding Control.tried
tried-not_met Control.accepted h = cc
tried-not_met Control.aborted h = refl
tried-not_met (Control.refused e) h = cc

tried-met : (a : Control.Answer) → Control.tried a ≡ Control.is_met → a ≡ Control.accepted
unfolding Control.tried
tried-met Control.accepted h = refl
tried-met Control.aborted h = cc
tried-met (Control.refused e) h = cc

Polled-IsAccepted :
    (answers : ℕ → Control.Answer) (err : Option Bytes)
    → Control.Polled 7 (λ i. Control.tried (answers i)) err
    → (IsAccepted answers × (err ≡ none)) ⊎ ((e : Bytes) × (err ≡ some e))
Polled-IsAccepted answers _ (Control.met n below before here) = inl (
  record {
    at = n;
    below = below;
    before = λ i h. tried-not_met (answers i) (before i h);
    taken = tried-met (answers n) here;
  },
  refl,
)
Polled-IsAccepted answers _ (Control.failed n e below before here) = inr (e, refl)
Polled-IsAccepted answers _ (Control.gave_up e) = inr (e, refl)

module _ ⦃json : Json⦄ where
  failed_again :
      (s : Session) (raw fresh : Bytes)
      → s.sink ≡ none
      → (u : Session) × (on_event raw fresh (resume_failed s) ≡ some (u, resume))
        × (u.buffer ≡ s.buffer ++ record { key = s.next_key; raw = raw } ∷ [])
  unfolding on_event resume_failed
  failed_again s raw fresh away = rw away (_, refl, refl)

  -- If no other resume of the actor is in flight, then when `Resume` returns to a session whose actor
  -- is away, either one of at most seven calls was accepted, after aborted ones only, and the session
  -- is left as it is, or the next event is buffered and starts another resume.
  pub resume-retries :
      (l : Control.Library) (api : Control.Service) (boot : Bool) (ended : Option Bytes)
      (ref : ActorRef) (s : Session) (raw fresh : Bytes)
      → Control.LibraryLaws l
      → Control.IsAlone l (to_string ref)
      → s.sink ≡ none
      → let t = Control.after_resume (Control.resume l api boot ended ref) s in
        (IsAccepted (λ i. api.resume_actor i (record { actor_ref = ref; boot = boot })) × (t ≡ s))
        ⊎ ((u : Session) × (on_event raw fresh t ≡ some (u, resume))
            × (u.buffer ≡ s.buffer ++ record { key = s.next_key; raw = raw } ∷ []))
  unfolding Control.resume Control.after_resume
  resume-retries l api boot (some e) ref s raw fresh laws alone away =
      inr (failed_again s raw fresh away)
  resume-retries l api boot none ref s raw fresh laws alone away =
      let answers : ℕ → Control.Answer =
        λ i. api.resume_actor i (record { actor_ref = ref; boot = boot }) in
      let condition : ℕ → Control.Condition = λ i. Control.tried (answers i) in
      let err = l.exponential_backoff 30 Control.backoff condition in
      let flown = alone err in
      elim (Polled-IsAccepted answers err (laws.polls 30 Control.backoff condition)) [
        | inl (accepted, nil) ↦ inl (accepted, rw (flown, nil) refl)
        | inr (e, fails) ↦ inr (rw (flown, fails) (failed_again s raw fresh away))
      ]

failed-on_idle :
    (c : Config) (s : Session)
    → is_none s.sink ≡ false
    → is_positive s.in_flight ≡ false
    → (on_idle (suspend_failed c s) ≡ (record (suspend_failed c s) { suspending = true }, suspend))
      × ((suspend_failed c s).idle_tmr ≡ not (c.idle_grace == 0))
unfolding on_idle suspend_failed arm_idle
failed-on_idle c s here idle = (ground arith, ground arith)

last_forward-on_idle :
    (c : Config) (s : Session)
    → is_none s.sink ≡ false
    → s.in_flight ≡ 1
    → let t = end_forward c (suspend_failed c s) in
      (on_idle t ≡ (record t { suspending = true }, suspend))
      × (t.idle_tmr ≡ not (c.idle_grace == 0))
unfolding on_idle suspend_failed arm_idle end_forward
last_forward-on_idle c s here one = (ground arith, ground arith)

-- The session waits for the answer of `Suspend`, with its connection.
record Waits (s : Session) : Type 0 where
  suspending : s.suspending ≡ true
  present : is_none s.sink ≡ false

asked-Waits : (s t : Session) → on_idle s ≡ (t, suspend) → Waits t
unfolding on_idle
asked-Waits s t asks = record { suspending = ground arith; present = ground arith }

waiting-on_idle : (s : Session) → Waits s → on_idle s ≡ (s, done)
unfolding on_idle
waiting-on_idle s w = ground (arith, w.suspending)

module _ ⦃json : Json⦄ (c : Config) where
  exec-Waits :
      (sec : Section) (s t : Session) (task : Task)
      → KeepsSuspending c sec
      → exec c sec s ≡ some (t, task)
      → Waits s
      → Waits t
  unfolding exec note_activity on_idle suspend_failed begin_forward end_forward ensure_started
      resume_failed close attach ack arm_fallback
  exec-Waits (detaches k) s t task h e v = absurd h
  exec-Waits fails_suspend s t task h e v = absurd h
  exec-Waits (delivers ids k) s t task h e v = elim (deliver_buffered-Delivery ids k s t task e) [
    | skipped _ now next ↦ rw now v
    | stamped _ _ _ _ now next ↦ rw now (record { suspending = v.suspending; present = v.present })
  ]
  exec-Waits (receives raw fresh) s t task h e v = elim (on_event-Arrival raw fresh s t task e) [
    | delivered _ _ _ _ _ now next ↦
        rw now (record { suspending = v.suspending; present = v.present })
    | held _ _ _ now next ↦ rw now (record { suspending = v.suspending; present = v.present })
    | left away now next ↦ rw now (record { suspending = v.suspending; present = v.present })
  ]
  exec-Waits _ s t task h e v = record {
    suspending = ground (arith, v.suspending);
    present = ground (arith, v.present);
  }

  run-Waits :
      (secs : List Section) (s t : Session)
      → run_sections c secs s ≡ some t
      → All (KeepsSuspending c) secs
      → Waits s
      → Waits t
  unfolding run_sections
  run-Waits [] s t e h v = let same : s ≡ t = ground arith in subst Waits same v
  run-Waits (sec ∷ rest) s t e h v =
      let ((m, task), here, later) = >>=-eq-some (exec c sec s) _ e in
      run-Waits rest m t later h.1 (exec-Waits sec s m task h.0 here v)

  -- After `onIdle` has asked for a suspend, and any regions without a detach or another failed suspend
  -- that run before the service answers: if it accepts, the callback of the idle timer does nothing
  -- more and the session keeps waiting for the end of the connection. If it fails, then with no
  -- forward counted the idle timer is armed, unless idle suspend is off, and its callback asks once
  -- more; with one forward counted, the same holds once that forward ends next.
  pub on_idle-retries :
      (api : Control.Service) (ref : ActorRef) (s t v : Session) (secs : List Section)
      → on_idle s ≡ (t, suspend)
      → run_sections c secs t ≡ some v
      → All (KeepsSuspending c) secs
      → let u = Control.after_suspend c (Control.suspend api ref) v in
        let z = end_forward c u in
        ((api.suspend_actor ref ≡ none) × (on_idle u ≡ (u, done)) × (u.suspending ≡ true))
        ⊎ ((e : Bytes) × (api.suspend_actor ref ≡ some e)
            × (is_positive v.in_flight ≡ false
                → (on_idle u ≡ (record u { suspending = true }, suspend))
                  × (u.idle_tmr ≡ not (c.idle_grace == 0)))
            × (v.in_flight ≡ 1
                → (on_idle z ≡ (record z { suspending = true }, suspend))
                  × (z.idle_tmr ≡ not (c.idle_grace == 0))))
  unfolding Control.suspend Control.after_suspend
  on_idle-retries api ref s t v secs asks ran keeps =
      let w = run-Waits secs t v ran keeps (asked-Waits s t asks) in
      elim (Option-cases (api.suspend_actor ref)) [
        | inl nil ↦ inl (nil, rw nil (waiting-on_idle v w), rw nil w.suspending)
        | inr (e, fails) ↦ inr (
          e,
          fails,
          rw fails (failed-on_idle c v w.present),
          rw fails (last_forward-on_idle c v w.present),
        )
      ]
