-- ===== src/Session/Idle.antt =====
-- Idle suspend in cmd/egress-broker/registry.go: when the timer is armed, and a flag that sticks.
use substrate_ws_poc.Prelude.{
  ℕ, ◌<◌, true, false, List, [], ◌∷◌, none, some, ◌≡◌, refl, arith, nat_eq, All, Option-cases, inl,
  inr, ◌≢◌, is_none,
}
use substrate_ws_poc.Actor.{ActorRef}
use substrate_ws_poc.SocketMode.{Json}
use substrate_ws_poc.Session.State.{Config, Session, Task, suspend, is_positive, new_session}
use substrate_ws_poc.Session.Ops.{
  note_activity, on_idle, suspend_failed, begin_forward, end_forward, ensure_started, resume_failed,
  close, detach, ack, attach, arm_fallback,
}
use substrate_ws_poc.Session.Sections.{
  Section, fails_suspend, detaches, attaches, delivers, receives, exec,
}
use substrate_ws_poc.Session.Cases.{
  skipped, stamped, deliver_buffered-Delivery, delivered, held, left, on_event-Arrival,
}
use substrate_ws_poc.Session.Latch.{suspends, count_tasks}
use substrate_ws_poc.Session.Runs.{run_sections, run_inv}

-- An armed timer has an actor to suspend, and a session without an actor has nothing pending.
pub record IsCalm (c : Config) (s : Session) : Type 0 where
  pub connected : s.idle_tmr ≡ true → is_none s.sink ≡ false
  pub quiet : s.idle_tmr ≡ true → is_positive s.in_flight ≡ false
  pub enabled : s.idle_tmr ≡ true → 0 < c.idle_grace
  pub away_unsettled : s.sink ≡ none → s.settled ≡ false
  pub away_awake : s.sink ≡ none → s.suspending ≡ false

module _ ⦃json : Json⦄ (c : Config) where
  exec-IsCalm :
      (sec : Section) (s t : Session) (task : Task)
      → exec c sec s ≡ some (t, task)
      → IsCalm c s
      → IsCalm c t
  unfolding exec note_activity on_idle suspend_failed begin_forward end_forward ensure_started
      resume_failed close detach ack attach arm_fallback
  exec-IsCalm (delivers ids k) s t task e v = elim (deliver_buffered-Delivery ids k s t task e) [
    | skipped why now next ↦ rw now v
    | stamped _ cur uns here now next ↦ ground arith
  ]
  exec-IsCalm (receives raw fresh) s t task e v = elim (on_event-Arrival raw fresh s t task e) [
    | delivered _ _ here settled out now next ↦ ground arith
    | held _ here settled now next ↦ ground arith
    | left away now next ↦ ground arith
  ]
  exec-IsCalm _ s t task e v = ground arith

  -- After any sequence of locked regions of a new session that does not panic, an armed idle timer
  -- means that idle suspend is on, that the actor is connected and that no forward is counted; and a
  -- session without a connection is neither settled nor being suspended.
  pub run-IsCalm :
      (ref : ActorRef) (secs : List Section) (t : Session)
      → run_sections c secs (new_session ref) ≡ some t
      → IsCalm c t
  unfolding new_session
  run-IsCalm ref secs t e =
      run_inv c (IsCalm c) exec-IsCalm secs (new_session ref) t e (ground arith)

  -- The connection `k` stays, and no suspend fails.
  abbrev pub Stays : ℕ → Section → Type 0
  Stays k (attaches j) = ⊥
  Stays k (detaches j) = j ≢ k
  Stays k fails_suspend = ⊥
  Stays k _ = Unit

  abbrev IsStuck : ℕ → Session → Type 0
  IsStuck k s = (s.sink ≡ some k) × (s.suspending ≡ true)

  Stays-IsStuck :
      (k : ℕ) (sec : Section) (s t : Session) (task : Task)
      → Stays k sec
      → exec c sec s ≡ some (t, task)
      → IsStuck k s
      → IsStuck k t × (task ≢ suspend)
  unfolding exec note_activity on_idle suspend_failed begin_forward end_forward ensure_started
      resume_failed close detach ack attach arm_fallback
  Stays-IsStuck k (attaches j) s t task h e v = absurd h
  Stays-IsStuck k fails_suspend s t task h e v = absurd h
  Stays-IsStuck k (delivers ids j) s t task h e v =
      elim (deliver_buffered-Delivery ids j s t task e) [
        | skipped why now next ↦ ground arith
        | stamped _ cur uns here now next ↦ ground arith
      ]
  Stays-IsStuck k (receives raw fresh) s t task h e v =
      elim (on_event-Arrival raw fresh s t task e) [
        | delivered _ _ here settled out now next ↦ ground arith
        | held _ here settled now next ↦ ground arith
        | left away now next ↦ ground arith
      ]
  Stays-IsStuck k _ s t task h e v = ground arith

  stuck-suspends :
      (k : ℕ) (secs : List Section) (s : Session)
      → All (Stays k) secs
      → IsStuck k s
      → suspends c secs s ≡ 0
  unfolding suspends count_tasks
  stuck-suspends k [] s h v = refl
  stuck-suspends k (sec ∷ rest) s h v = elim (Option-cases (exec c sec s)) [
    | inl panics ↦ rw (panics, suspends, count_tasks)
    | inr ((t, task), here) ↦
        let (stuck, other) = Stays-IsStuck k sec s t task h.0 here v in
        rw (here, suspends, count_tasks) (ground (arith, stuck-suspends k rest t h.1 stuck, other))
  ]

  -- A connection that attaches while a suspend is pending is not suspended over any sequence of
  -- regions in which it stays the current one and no suspend fails: the flag stays set, since the
  -- detach of another connection is ignored.
  pub attach-never_suspended :
      (k : ℕ) (secs : List Section) (s : Session)
      → s.suspending ≡ true
      → All (Stays k) secs
      → suspends c secs (attach c k s).0 ≡ 0
  unfolding attach
  attach-never_suspended k secs s pending h =
      stuck-suspends k secs (attach c k s).0 h (refl, pending)
