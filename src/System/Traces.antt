-- ===== src/System/Traces.antt =====
-- What the goroutines of a session leave behind: its connections, the frames given to them, and its
-- token with its read loop, which only `EnsureStarted` of cmd/egress-broker/registry.go sets.
use substrate_ws_poc.Prelude.{
  ℕ, Bool, true, false, List, [], ◌∷◌, some, ◌≡◌, refl, subst, arith, nat_eq, Bool-cases, inl, inr,
  >>=-eq-some, get_elem?,
}
use substrate_ws_poc.Prelude.Bytes.{bytes_eq}
use substrate_ws_poc.SocketMode.{Json}
use substrate_ws_poc.Session.State.{Config, Session, Task, done, write, deliver, note, arm}
use substrate_ws_poc.Session.Ops.{
  note_activity, on_idle, suspend_failed, begin_forward, end_forward, resume_failed, close, detach,
  ack, attach, arm_fallback, is_current,
}
use substrate_ws_poc.Session.Sections.{
  Section, starts, delivers, receives, acks, detaches, arms_fallback, notes_activity, exec,
}
use substrate_ws_poc.Session.Cases.{
  delivered, held, left, on_event-Arrival, skipped, stamped, deliver_buffered-Delivery,
}
use substrate_ws_poc.Session.Outbox.{elem}
use substrate_ws_poc.System.State.{
  Write, Shared, Place, runs, writing, sending, Role, serves, listens, System,
}
use substrate_ws_poc.System.Steps.{
  Choice, goes, fails, beats, confirms, leaves, hears, region, wait, move, Event, moves, connects,
  fires, runs_region, is_other, step, logged,
}
use substrate_ws_poc.System.Greeting.{is_ready}
use substrate_ws_poc.System.Regions.{region-exec}

abbrev pub is_start : Section → Bool
is_start (starts token) = true
is_start _ = false

abbrev pub is_start_step : Event → Bool
is_start_step (runs_region sec) = is_start sec
is_start_step _ = false

abbrev pub attached_after : Event → List ℕ → List ℕ
attached_after (connects k) ks = k ∷ ks
attached_after _ ks = ks

pub record SameLoop (s t : Session) : Type 0 where
  pub started : t.started ≡ s.started
  pub token : t.app_token ≡ s.app_token

-- The new writes go to sinks that were attached.
pub data Wrote (sh sh' : Shared) : Type 0 where
  quiet : sh'.log ≡ sh.log → Wrote sh sh'
  wrote : (w : Write) → sh'.log ≡ w ∷ sh.log → elem w.sink sh.attached ≡ true → Wrote sh sh'

module _ ⦃json : Json⦄ (c : Config) where
  exec-SameLoop :
      (sec : Section) (s t : Session) (task : Task)
      → is_start sec ≡ false
      → exec c sec s ≡ some (t, task)
      → SameLoop s t
  unfolding exec note_activity on_idle suspend_failed begin_forward end_forward resume_failed close
      detach ack attach arm_fallback
  exec-SameLoop (starts token) s t task h e = cc
  exec-SameLoop (receives raw fresh) s t task h e = elim (on_event-Arrival raw fresh s t task e) [
    | delivered _ _ here settled out now next ↦ ground arith
    | held _ here settled now next ↦ ground arith
    | left away now next ↦ ground arith
  ]
  exec-SameLoop (delivers ids k) s t task h e = elim (deliver_buffered-Delivery ids k s t task e) [
    | skipped why same next ↦ ground arith
    | stamped frames cur unsettled built now next ↦ ground arith
  ]
  exec-SameLoop _ s t task h e = ground arith

  kept_loop : (s : Session) → SameLoop s s
  kept_loop s = record { started = refl; token = refl }

  -- What a step of a goroutine keeps, and where it writes if it was ready.
  pub record Keeps (ready : Bool) (sh sh' : Shared) : Type 0 where
    pub loop : SameLoop sh.session sh'.session
    pub attached : sh'.attached ≡ sh.attached
    pub wrote_to : ready ≡ true → Wrote sh sh'

  region-Keeps :
      (ready : Bool) (sh sh' : Shared) (sec : Section) (p : Place)
      → is_start sec ≡ false
      → region c sh sec ≡ some (sh', p)
      → Keeps ready sh sh'
  region-Keeps ready sh sh' sec p h e =
      let (t, task, here, now, place) = region-exec c sh sh' sec p e in
      rw now (record {
        loop = exec-SameLoop sec sh.session t task h here;
        attached = refl;
        wrote_to = λ h. quiet refl;
      })

  Keeps-same : (ready : Bool) (sh sh' : Shared) → sh' ≡ sh → Keeps ready sh sh'
  Keeps-same ready sh sh' e =
      rw e (record { loop = kept_loop sh.session; attached = refl; wrote_to = λ h. quiet refl })

  wait-Keeps :
      (ready : Bool) (r : Role) (ch : Choice) (sh sh' : Shared) (p : Place)
      → wait c r ch sh ≡ some (sh', p)
      → Keeps ready sh sh'
  unfolding wait
  wait-Keeps ready (serves k) beats sh sh' p e = Keeps-same ready sh sh' (ground arith)
  wait-Keeps ready (serves k) (confirms id) sh sh' p e =
      region-Keeps ready sh sh' (acks id) p refl e
  wait-Keeps ready (serves k) leaves sh sh' p e =
      let ((u, q), here, out) = >>=-eq-some (region c sh (detaches k)) _ e in
      let now : u ≡ sh' = ground arith in
      subst (Keeps ready sh) now (region-Keeps ready sh u (detaches k) q refl here)
  wait-Keeps ready listens (hears raw fresh) sh sh' p e =
      region-Keeps ready sh sh' (receives raw fresh) p refl e
  wait-Keeps ready _ _ sh sh' p e = cc

  pub move-Keeps :
      (r : Role) (ch : Choice) (p : Place) (sh sh' : Shared) (p' : Place)
      → move c r ch p sh ≡ some (sh', p')
      → Keeps (is_ready c.hello_frame sh p) sh sh'
  unfolding move
  move-Keeps r ch (runs done) sh sh' p' e = wait-Keeps _ r ch sh sh' p' e
  move-Keeps r (goes ids) (runs (write k frames t)) sh sh' p' e =
      let now : sh' ≡ record sh { locked = true } = ground arith in
      rw now (record { loop = kept_loop sh.session; attached = refl; wrote_to = λ h. quiet refl })
  move-Keeps r (goes ids) (runs (deliver k)) sh sh' p' e =
      region-Keeps _ sh sh' (delivers ids k) p' refl e
  move-Keeps r (goes ids) (runs note) sh sh' p' e = region-Keeps _ sh sh' notes_activity p' refl e
  move-Keeps r (goes ids) (runs (arm k)) sh sh' p' e =
      let m =
        region-Keeps true (record sh { armed = k ∷ sh.armed }) sh' (arms_fallback k) p' refl e in
      record {
        loop = m.loop;
        attached = m.attached;
        wrote_to = λ h. elim (m.wrote_to refl) [
          | quiet same ↦ quiet same
          | wrote w added at ↦ wrote w added at
        ];
      }
  move-Keeps r (goes ids) (writing k [] t) sh sh' p' e =
      let now : sh' ≡ record sh { locked = false } = ground arith in
      rw now (record { loop = kept_loop sh.session; attached = refl; wrote_to = λ h. quiet refl })
  move-Keeps r (goes ids) (writing k (f ∷ frames) t) sh sh' p' e =
      elim (Bool-cases (is_current k sh.session.sink)) [
        | inl cur ↦ Keeps-same _ sh sh' (ground arith)
        | inr other ↦
            let now : sh' ≡ record sh { locked = false } = ground arith in
            rw now
              (record { loop = kept_loop sh.session; attached = refl; wrote_to = λ h. quiet refl })
      ]
  move-Keeps r (goes ids) (sending k f frames t) sh sh' p' e =
      let now : sh' ≡ logged k f true sh = ground arith in
      rw now (record {
        loop = kept_loop sh.session;
        attached = refl;
        wrote_to = λ h. wrote _ refl (ground arith);
      })
  move-Keeps r fails (sending k f frames t) sh sh' p' e =
      let now : sh' ≡ record (logged k f false sh) { locked = false } = ground arith in
      rw now (record {
        loop = kept_loop sh.session;
        attached = refl;
        wrote_to = λ h. wrote _ refl (ground arith);
      })
  move-Keeps _ _ _ sh sh' p' e = cc

  pub step-SameLoop :
      (e : Event) (y z : System)
      → is_start_step e ≡ false
      → step c e y ≡ some z
      → SameLoop y.shared.session z.shared.session
  unfolding step attach
  step-SameLoop (moves i ch) y z h e =
      let (th, at, next) = >>=-eq-some (get_elem? y.threads i) _ e in
      let ((sh, p), moved, out) = >>=-eq-some (move c th.role ch th.place y.shared) _ next in
      let now : sh ≡ z.shared = ground arith in
      subst (λ s. SameLoop y.shared.session s.session) now
        (move-Keeps th.role ch th.place y.shared sh p moved).loop
  step-SameLoop (connects k) y z h e = ground arith
  step-SameLoop (fires k) y z h e = ground arith
  step-SameLoop (runs_region sec) y z h e = elim (Bool-cases (is_other sec)) [
    | inr no_other ↦ absurd (ground arith)
    | inl other ↦
        let ((t, task), here, out) = >>=-eq-some (exec c sec y.shared.session) _ (rw other at e) in
        let now : t ≡ z.shared.session = ground arith in
        subst (SameLoop y.shared.session) now (exec-SameLoop sec y.shared.session t task h here)
  ]

  pub step-attached :
      (e : Event) (y z : System)
      → step c e y ≡ some z
      → z.shared.attached ≡ attached_after e y.shared.attached
  unfolding step attach
  step-attached (moves i ch) y z e =
      let (th, at, next) = >>=-eq-some (get_elem? y.threads i) _ e in
      let ((sh, p), moved, out) = >>=-eq-some (move c th.role ch th.place y.shared) _ next in
      let now : sh ≡ z.shared = ground arith in
      subst (λ s. s.attached ≡ y.shared.attached) now
        (move-Keeps th.role ch th.place y.shared sh p moved).attached
  step-attached (connects k) y z e = ground arith
  step-attached (fires k) y z e = ground arith
  step-attached (runs_region sec) y z e = ground arith
