-- ===== src/Session/Latch.antt =====
-- The flags `resuming` and `suspending` of cmd/egress-broker/registry.go as latches: what they let
-- through, and how often.
use substrate_ws_poc.Prelude.{
  ℕ, ◌+◌, ◌≤◌, Bool, List, [], ◌∷◌, none, some, ◌≡◌, refl, arith, nat_eq, All, if◌then◌else◌,
  Option-cases, inl, inr,
}
use substrate_ws_poc.SocketMode.{Json}
use substrate_ws_poc.Session.State.{Config, Session, Task, resume, suspend}
use substrate_ws_poc.Session.Ops.{
  note_activity, on_idle, suspend_failed, begin_forward, end_forward, ensure_started, resume_failed,
  close, detach, ack, attach, arm_fallback,
}
use substrate_ws_poc.Session.Sections.{
  Section, fails_suspend, fails_resume, detaches, attaches, delivers, receives, exec,
}
use substrate_ws_poc.Session.Cases.{
  skipped, stamped, deliver_buffered-Delivery, delivered, held, left, on_event-Arrival,
}

abbrev is_resume : Task → ℕ
is_resume resume = 1
is_resume _ = 0

abbrev pub is_suspend : Task → ℕ
is_suspend suspend = 1
is_suspend _ = 0

-- How often a latch may still let a call through.
abbrev pub room : Bool → ℕ
room flag = if flag then 0 else 1

module _ ⦃json : Json⦄ (c : Config) where
  -- The calls of a kind that a run starts.
  unfoldable pub count_tasks : (Task → ℕ) → List Section → Session → ℕ
  count_tasks kind [] s = 0
  count_tasks kind (sec ∷ rest) s = elim (exec c sec s) [
    | none ↦ 0
    | some (t, task) ↦ kind task + count_tasks kind rest t
  ]

  -- The calls of `Resume` that a run starts.
  unfoldable pub resumes : List Section → Session → ℕ
  unfolding count_tasks
  resumes = count_tasks is_resume

  unfoldable pub suspends : List Section → Session → ℕ
  unfolding count_tasks
  suspends = count_tasks is_suspend

  pub suspends_nil : (s : Session) → suspends [] s ≡ 0
  unfolding suspends count_tasks
  suspends_nil s = refl

  pub suspends_cons :
      (sec : Section) (rest : List Section) (s t : Session) (task : Task)
      → exec c sec s ≡ some (t, task)
      → suspends (sec ∷ rest) s ≡ is_suspend task + suspends rest t
  unfolding suspends count_tasks
  suspends_cons sec rest s t task here = rw (here, count_tasks) refl

  -- The latch rule: where each region uses up the room that it needs, so does a run.
  count_tasks-le :
      (kind : Task → ℕ) (flag : Session → Bool) (Allowed : Section → Type 0)
      → ((sec : Section) (s t : Session) (task : Task)
          → Allowed sec
          → exec c sec s ≡ some (t, task)
          → kind task + room (flag t) ≤ room (flag s))
      → (secs : List Section) (s : Session) → All Allowed secs
      → count_tasks kind secs s ≤ room (flag s)
  unfolding count_tasks
  count_tasks-le kind flag Allowed step [] s h = omega arith
  count_tasks-le kind flag Allowed step (sec ∷ rest) s h = elim (Option-cases (exec c sec s)) [
    | inl panics ↦ rw (panics, count_tasks) (omega arith)
    | inr ((t, task), here) ↦
        rw (here, count_tasks)
          (omega
            (arith, step sec s t task h.0 here, count_tasks-le kind flag Allowed step rest t h.1))
  ]

  -- Neither an attach nor a failed resume.
  abbrev pub KeepsResuming : Section → Type 0
  KeepsResuming (attaches k) = ⊥
  KeepsResuming fails_resume = ⊥
  KeepsResuming _ = Unit

  -- Neither a detach nor a failed suspend.
  abbrev pub KeepsSuspending : Section → Type 0
  KeepsSuspending (detaches k) = ⊥
  KeepsSuspending fails_suspend = ⊥
  KeepsSuspending _ = Unit

  resumes_step :
      (sec : Section) (s t : Session) (task : Task)
      → KeepsResuming sec
      → exec c sec s ≡ some (t, task)
      → is_resume task + room t.resuming ≤ room s.resuming
  unfolding exec note_activity on_idle suspend_failed begin_forward end_forward ensure_started
      resume_failed close detach ack arm_fallback
  resumes_step (attaches k) s t task h e = absurd h
  resumes_step fails_resume s t task h e = absurd h
  resumes_step (delivers ids k) s t task h e = elim (deliver_buffered-Delivery ids k s t task e) [
    | skipped _ now next ↦ ground arith
    | stamped _ _ _ _ now next ↦ ground arith
  ]
  resumes_step (receives raw fresh) s t task h e = elim (on_event-Arrival raw fresh s t task e) [
    | delivered _ _ _ _ _ now next ↦ ground arith
    | held _ _ _ now next ↦ ground arith
    | left away now next ↦ ground arith
  ]
  resumes_step _ s t task h e = ground arith

  suspends_step :
      (sec : Section) (s t : Session) (task : Task)
      → KeepsSuspending sec
      → exec c sec s ≡ some (t, task)
      → is_suspend task + room t.suspending ≤ room s.suspending
  unfolding exec note_activity on_idle suspend_failed begin_forward end_forward ensure_started
      resume_failed close attach ack arm_fallback
  suspends_step (detaches k) s t task h e = absurd h
  suspends_step fails_suspend s t task h e = absurd h
  suspends_step (delivers ids k) s t task h e = elim (deliver_buffered-Delivery ids k s t task e) [
    | skipped _ now next ↦ ground arith
    | stamped _ _ _ _ now next ↦ ground arith
  ]
  suspends_step (receives raw fresh) s t task h e = elim (on_event-Arrival raw fresh s t task e) [
    | delivered _ _ _ _ _ now next ↦ ground arith
    | held _ _ _ now next ↦ ground arith
    | left away now next ↦ ground arith
  ]
  suspends_step _ s t task h e = ground arith

  -- Over any sequence of locked regions in which no actor attaches and no resume fails, at most one
  -- resume is started, and none if one is in flight at the start.
  pub resumes-le :
      (secs : List Section) (s : Session)
      → All KeepsResuming secs
      → resumes secs s ≤ room s.resuming
  unfolding resumes
  resumes-le = count_tasks-le is_resume (λ s. s.resuming) KeepsResuming resumes_step

  -- Over any sequence of locked regions in which no connection detaches and no suspend fails, at
  -- most one suspend is started, and none if one is in flight at the start.
  pub suspends-le :
      (secs : List Section) (s : Session)
      → All KeepsSuspending secs
      → suspends secs s ≤ room s.suspending
  unfolding suspends
  suspends-le = count_tasks-le is_suspend (λ s. s.suspending) KeepsSuspending suspends_step
