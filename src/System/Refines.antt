-- ===== src/System/Refines.antt =====
-- The runs of the goroutines of cmd/egress-broker/registry.go and server.go, and the runs of the
-- locked regions of their session.
use substrate_ws_poc.Prelude.{
  ◌≤◌, true, List, [], ◌∷◌, ◌++◌, some, ◌≡◌, refl, arith, nat_eq, Bool-cases, inl, inr, >>=-eq-some,
  get_elem?, length, subst, sym, ◌∙◌, ap,
}
use substrate_ws_poc.Prelude.Bytes.{Bytes, bytes_eq}
use substrate_ws_poc.Actor.{ActorRef}
use substrate_ws_poc.SocketMode.{Json}
use substrate_ws_poc.Session.State.{
  Config, Session, Task, done, write, deliver, note, arm, word, new_session,
}
use substrate_ws_poc.Session.Ops.{attach}
use substrate_ws_poc.Session.Sections.{
  Section, notes_activity, attaches, detaches, arms_fallback, delivers, receives, acks, exec,
}
use substrate_ws_poc.Session.Runs.{
  run_sections, received_by, history_after, no_history, buffer-outstanding,
}
use substrate_ws_poc.Session.Outbox.{outstanding, elem}
use substrate_ws_poc.System.State.{
  Shared, Place, runs, writing, sending, Role, serves, listens, System, new_system,
}
use substrate_ws_poc.System.Steps.{
  Choice, goes, fails, beats, confirms, leaves, hears, region, wait, move, Event, moves, connects,
  fires, runs_region, is_other, step, run,
}
use substrate_ws_poc.System.Regions.{region-exec}

-- What comes from outside for the session: an event of Slack, or an id that the actor confirms.
pub data Input : Type 0 where
  event : Bytes → Input
  confirmation : Bytes → Input

-- The inputs of a choice, a step, a run, and some regions.
abbrev pub heard : Choice → List Input
heard (hears raw fresh) = event raw ∷ []
heard (confirms id) = confirmation id ∷ []
heard _ = []

abbrev pub heard_at : Event → List Input
heard_at (moves i ch) = heard ch
heard_at _ = []

unfoldable pub heard_by : List Event → List Input
heard_by [] = []
heard_by (e ∷ es) = heard_at e ++ heard_by es

unfoldable pub inputs_of : List Section → List Input
inputs_of [] = []
inputs_of (receives raw fresh ∷ rest) = event raw ∷ inputs_of rest
inputs_of (acks id ∷ rest) = confirmation id ∷ inputs_of rest
inputs_of (sec ∷ rest) = inputs_of rest

unfoldable pub events_of : List Input → List Bytes
events_of [] = []
events_of (event raw ∷ rest) = raw ∷ events_of rest
events_of (confirmation id ∷ rest) = events_of rest

pub events_of-inputs_of : (secs : List Section) → events_of (inputs_of secs) ≡ received_by secs
unfolding events_of inputs_of received_by
events_of-inputs_of [] = refl
events_of-inputs_of (receives raw fresh ∷ rest) = ap (◌∷◌ raw) (events_of-inputs_of rest)
events_of-inputs_of (sec ∷ rest) = events_of-inputs_of rest

module _ ⦃json : Json⦄ (c : Config) where
  -- A step keeps the session, or it runs one region, and it brings these inputs.
  data Ran (s t : Session) : List Input → Type 0 where
    kept : t ≡ s → Ran s t []
    ran :
        (sec : Section) (task : Task)
        → exec c sec s ≡ some (t, task)
        → Ran s t (inputs_of (sec ∷ []))

  region-Ran :
      (sh sh' : Shared) (sec : Section) (p : Place)
      → region c sh sec ≡ some (sh', p)
      → Ran sh.session sh'.session (inputs_of (sec ∷ []))
  region-Ran sh sh' sec p e =
      let (t, task, here, now, place) = region-exec c sh sh' sec p e in
      let same : t ≡ sh'.session = ap (λ u. u.session) (sym now) in
      subst (λ u. Ran sh.session u (inputs_of (sec ∷ []))) same (ran sec task here)

  wait-Ran :
      (r : Role) (ch : Choice) (sh sh' : Shared) (p : Place)
      → wait c r ch sh ≡ some (sh', p)
      → Ran sh.session sh'.session (heard ch)
  unfolding wait inputs_of
  wait-Ran (serves k) beats sh sh' p e = kept (ground arith)
  wait-Ran (serves k) (confirms id) sh sh' p e = region-Ran sh sh' (acks id) p e
  wait-Ran (serves k) leaves sh sh' p e =
      let ((u, q), here, out) = >>=-eq-some (region c sh (detaches k)) _ e in
      let now : u ≡ sh' = ground arith in
      subst (λ v. Ran sh.session v.session []) now (region-Ran sh u (detaches k) q here)
  wait-Ran listens (hears raw fresh) sh sh' p e = region-Ran sh sh' (receives raw fresh) p e
  wait-Ran _ _ sh sh' p e = cc

  move-Ran :
      (r : Role) (ch : Choice) (p : Place) (sh sh' : Shared) (p' : Place)
      → move c r ch p sh ≡ some (sh', p')
      → Ran sh.session sh'.session (heard ch)
  unfolding move inputs_of
  move-Ran r ch (runs done) sh sh' p' e = wait-Ran r ch sh sh' p' e
  move-Ran r (goes ids) (runs (write k frames t)) sh sh' p' e = kept (ground arith)
  move-Ran r (goes ids) (runs (deliver k)) sh sh' p' e = region-Ran sh sh' (delivers ids k) p' e
  move-Ran r (goes ids) (runs note) sh sh' p' e = region-Ran sh sh' notes_activity p' e
  move-Ran r (goes ids) (runs (arm k)) sh sh' p' e =
      region-Ran (record sh { armed = k ∷ sh.armed }) sh' (arms_fallback k) p' e
  move-Ran r (goes ids) (writing k [] t) sh sh' p' e = kept (ground arith)
  move-Ran r (goes ids) (writing k (f ∷ frames) t) sh sh' p' e = kept (ground arith)
  move-Ran r (goes ids) (sending k f frames t) sh sh' p' e = kept (ground arith)
  move-Ran r fails (sending k f frames t) sh sh' p' e = kept (ground arith)
  move-Ran _ _ _ sh sh' p' e = cc

  other-inputs_of : (sec : Section) → is_other sec ≡ true → inputs_of (sec ∷ []) ≡ []
  unfolding inputs_of
  other-inputs_of (receives raw fresh) h = cc
  other-inputs_of (acks id) h = cc
  other-inputs_of _ h = refl

  step-Ran :
      (e : Event) (y z : System)
      → step c e y ≡ some z
      → Ran y.shared.session z.shared.session (heard_at e)
  unfolding step exec inputs_of
  step-Ran (moves i ch) y z e =
      let (th, at, next) = >>=-eq-some (get_elem? y.threads i) _ e in
      let ((sh, p), moved, out) = >>=-eq-some (move c th.role ch th.place y.shared) _ next in
      let now : sh ≡ z.shared = ground arith in
      subst (λ v. Ran y.shared.session v.session (heard ch)) now
        (move-Ran th.role ch th.place y.shared sh p moved)
  step-Ran (connects k) y z e = elim (Bool-cases (elem k y.shared.attached)) [
    | inl old ↦ absurd (ground arith)
    | inr new ↦
        let now : (attach c k y.shared.session).0 ≡ z.shared.session = ground arith in
        subst (λ v. Ran y.shared.session v []) now
          (ran (attaches k) (attach c k y.shared.session).1 refl)
  ]
  step-Ran (fires k) y z e = kept (ground arith)
  step-Ran (runs_region sec) y z e = elim (Bool-cases (is_other sec)) [
    | inr no_other ↦ absurd (ground arith)
    | inl other ↦
        let ((t, task), here, out) = >>=-eq-some (exec c sec y.shared.session) _ (rw other at e) in
        let now : t ≡ z.shared.session = ground arith in
        subst (Ran y.shared.session z.shared.session) (other-inputs_of sec other)
          (subst (λ v. Ran y.shared.session v (inputs_of (sec ∷ []))) now (ran sec task here))
  ]

  -- Regions that lead from one session to another, with their inputs.
  pub record Regions (s t : Session) (inputs : List Input) : Type 0 where
    pub secs : List Section
    pub runs : run_sections c secs s ≡ some t
    pub brought : inputs_of secs ≡ inputs

  inputs_of_cons :
      (sec : Section) (secs : List Section)
      → inputs_of (sec ∷ secs) ≡ inputs_of (sec ∷ []) ++ inputs_of secs
  unfolding inputs_of
  inputs_of_cons (receives raw fresh) secs = refl
  inputs_of_cons (acks id) secs = refl
  inputs_of_cons _ secs = refl

  Ran-Regions :
      (s t u : Session) (raws more : List Input)
      → Ran s t raws
      → Regions t u more
      → Regions s u (raws ++ more)
  unfolding run_sections
  Ran-Regions s t u _ more (kept same) r = record {
    secs = r.secs;
    runs = rw (sym same) r.runs;
    brought = r.brought;
  }
  Ran-Regions s t u _ more (ran sec task here) r = record {
    secs = sec ∷ r.secs;
    runs = rw here r.runs;
    brought = inputs_of_cons sec r.secs ∙ ap (λ rest. inputs_of (sec ∷ []) ++ rest) r.brought;
  }

  run-Regions :
      (es : List Event) (y z : System)
      → run c es y ≡ some z
      → Regions y.shared.session z.shared.session (heard_by es)
  unfolding run run_sections inputs_of heard_by
  run-Regions [] y z e = record { secs = []; runs = ground arith; brought = refl }
  run-Regions (e ∷ es) y z h =
      let (m, here, later) = >>=-eq-some (step c e y) _ h in
      Ran-Regions y.shared.session m.shared.session z.shared.session (heard_at e) (heard_by es)
        (step-Ran e y m here) (run-Regions es m z later)

  -- In every run of the goroutines from a new session, in which the read loop hears at most 2^64
  -- events, the session is one that its regions lead to, which have the same events and confirmations
  -- as inputs in the same order, and the buffer holds what the history of these regions leaves.
  pub run-outstanding :
      (ref : ActorRef) (es : List Event) (z : System)
      → run c es (new_system ref) ≡ some z
      → length (events_of (heard_by es)) ≤ word
      → (r : Regions (new_session ref) z.shared.session (heard_by es)) × (z.shared.session.buffer
          ≡ outstanding (history_after c r.secs (new_session ref) no_history))
  unfolding new_system
  run-outstanding ref es z e small =
      let r = run-Regions es (new_system ref) z e in
      let count : length (received_by r.secs) ≤ word =
        subst (λ raws. length raws ≤ word)
          (ap events_of (sym r.brought) ∙ events_of-inputs_of r.secs) small in
      (r, (buffer-outstanding c ref r.secs z.shared.session r.runs count).0)
