-- ===== src/Session/Once.antt =====
-- The frames that cmd/egress-broker/registry.go writes on one connection, and the keys of their
-- events.
use substrate_ws_poc.Prelude.{
  subst, ℕ, ◌+◌, ◌≤◌, ◌<◌, false, List, [], ◌∷◌, ◌++◌, none, some, ◌≡◌, refl, arith, nat_eq,
  >>=-eq-some, length, All, All-append, sym, ap, ◌∙◌, get_elem?,
}
use substrate_ws_poc.Prelude.Bytes.{Bytes, bytes_eq}
use substrate_ws_poc.SocketMode.{Json}
use substrate_ws_poc.Session.State.{Config, Session, PendingEvent, Task, word}
use substrate_ws_poc.Session.Sections.{Section, attaches, receives, exec}
use substrate_ws_poc.Session.Cases.{quiet-SameEvents}
use substrate_ws_poc.Session.Ascends.{Ascends, lowest, sent}
use substrate_ws_poc.Session.Sends.{taken, is_attach}
use substrate_ws_poc.Session.Sent.{exec-Sends}
use substrate_ws_poc.Session.Written.{
  AreFrames, no_frames, frames_of, AreFrames-append, exec-AreFrames,
}
use substrate_ws_poc.Session.Runs.{run_sections, received_by}
use substrate_ws_poc.Session.State.{new_session}
use substrate_ws_poc.Session.Kept.{IsReceived}
use substrate_ws_poc.Session.Numbered.{
  AreReceived, Continues, exec-InStep, get_elem?-append_left, get_elem?-append_right,
}
use substrate_ws_poc.Session.Ops.{attach}
use substrate_ws_poc.Actor.{ActorRef}

taken-received_by :
    (sec : Section) (rest : List Section)
    → length (received_by (sec ∷ rest)) ≡ taken sec + length (received_by rest)
unfolding received_by
taken-received_by (receives raw fresh) rest = omega arith
taken-received_by _ rest = omega arith

lowest_le : (s : Session) → lowest s ≤ s.next_key
lowest_le s = ground arith

pub nil-Ascends : (low high : ℕ) → low ≤ high → Ascends low [] high
unfolding Ascends
nil-Ascends low high h = h

-- The session has its events in order, after so many more.
pub record IsOrdered (s t : Session) (n : ℕ) : Type 0 where
  pub next : t.next_key ≡ s.next_key + n
  pub ordered : Ascends 0 t.buffer t.next_key

module _ ⦃json : Json⦄ (c : Config) where
  -- The frames of a run, in the order of the regions that hand them to `writeToSink`.
  unfoldable pub frames_by : List Section → Session → List Bytes
  frames_by [] s = []
  frames_by (sec ∷ rest) s = elim (exec c sec s) [
    | none ↦ []
    | some (t, task) ↦ frames_of task ++ frames_by rest t
  ]

  frames_by_nil : (s : Session) → frames_by [] s ≡ []
  unfolding frames_by
  frames_by_nil s = refl

  frames_by_cons :
      (sec : Section) (rest : List Section) (s m : Session) (task : Task)
      → exec c sec s ≡ some (m, task)
      → frames_by (sec ∷ rest) s ≡ frames_of task ++ frames_by rest m
  unfolding frames_by
  frames_by_cons sec rest s m task here = rw (frames_by, here) refl

  exec-IsOrdered :
      (sec : Section) (s t : Session) (task : Task)
      → exec c sec s ≡ some (t, task)
      → s.next_key + taken sec < word
      → Ascends 0 s.buffer s.next_key
      → IsOrdered s t (taken sec)
  exec-IsOrdered (attaches k) s t task e small h =
      let same = quiet-SameEvents c (attaches k) s t task refl e in
      record { next = omega (arith, same.next_key); ordered = rw (same.buffer, same.next_key) h }
  exec-IsOrdered sec s t task e small h =
      let r = exec-Sends c sec s t task e refl small h in
      record { next = r.next; ordered = r.ordered }

  pub run-IsOrdered :
      (secs : List Section) (s t : Session)
      → run_sections c secs s ≡ some t
      → s.next_key + length (received_by secs) < word
      → Ascends 0 s.buffer s.next_key
      → IsOrdered s t (length (received_by secs))
  unfolding run_sections received_by
  run-IsOrdered [] s t e small h =
      let same : s ≡ t = cc in rw (sym same) (record { next = omega arith; ordered = h })
  run-IsOrdered (sec ∷ rest) s t e small h =
      let ((m, task), here, later) = >>=-eq-some (exec c sec s) _ e in
      let count = taken-received_by sec rest in
      let first = exec-IsOrdered sec s m task here (omega (arith, count, small)) h in
      let others =
        run-IsOrdered rest m t later (omega (arith, count, small, first.next)) first.ordered in
      record { next = omega (arith, count, first.next, others.next); ordered = others.ordered }

  run-InStep :
      (all : List Bytes) (secs : List Section) (s t : Session)
      → run_sections c secs s ≡ some t
      → s.next_key + length (received_by secs) < word
      → Ascends 0 s.buffer s.next_key
      → AreReceived all s.buffer
      → Continues all s.next_key secs
      → AreReceived all t.buffer
  unfolding run_sections
  run-InStep all [] s t e small h r more =
      let same : s ≡ t = cc in subst (λ u. AreReceived all u.buffer) same r
  run-InStep all (sec ∷ rest) s t e small h r more =
      let ((m, task), here, later) = >>=-eq-some (exec c sec s) _ e in
      let count = taken-received_by sec rest in
      let o = exec-IsOrdered sec s m task here (omega (arith, count, small)) h in
      let first = exec-InStep c all sec rest s m task here (omega (arith, count, small)) r more in
      run-InStep all rest m t later (omega (arith, count, small, o.next)) o.ordered first.buffer
        first.later

  run-AreFrames :
      (all : List Bytes) (secs : List Section) (s t : Session)
      → run_sections c secs s ≡ some t
      → All (λ sec. is_attach sec ≡ false) secs
      → s.next_key + length (received_by secs) < word
      → Ascends 0 s.buffer s.next_key
      → AreReceived all s.buffer
      → Continues all s.next_key secs
      → (es : List PendingEvent) × AreFrames es (frames_by secs s)
        × Ascends (lowest s) es t.next_key
        × AreReceived all es
  unfolding run_sections
  run-AreFrames all [] s t e a small h r more =
      let same : s ≡ t = cc in
      (
        [],
        subst (AreFrames []) (sym (frames_by_nil s)) no_frames,
        rw (sym same) (nil-Ascends (lowest s) s.next_key (lowest_le s)),
        tt,
      )
  run-AreFrames all (sec ∷ rest) s t e a small h r more =
      let ((m, task), here, later) = >>=-eq-some (exec c sec s) _ e in
      let count = taken-received_by sec rest in
      let first = exec-Sends c sec s m task here a.0 (omega (arith, count, small)) h in
      let step = exec-InStep c all sec rest s m task here (omega (arith, count, small)) r more in
      let (es, frames, up, good) =
        run-AreFrames all rest m t later a.1 (omega (arith, count, small, first.next)) first.ordered
          step.buffer step.later in
      (
        sent sec s ++ es,
        subst (AreFrames (sent sec s ++ es)) (sym (frames_by_cons sec rest s m task here)) (
            AreFrames-append (sent sec s) es (frames_of task) (frames_by rest m)
              (exec-AreFrames c sec s m task here a.0) frames),
        first.goes_on es t.next_key up,
        All-append (IsReceived all) (sent sec s) es step.out good,
      )

  -- After any regions of a new session and an attach, and with fewer than 2^64 events in all, the
  -- frames that the regions up to the next attach hand to `writeToSink` are those of events received
  -- so far, in the order in which they came and each at most once, under new ids: the events have
  -- rising keys, and the event with the key n is the n-th that came, counted from 0.
  pub attached-AreFrames :
      (ref : ActorRef) (secs rest : List Section) (k : ℕ) (s u : Session)
      → run_sections c secs (new_session ref) ≡ some s
      → run_sections c rest (attach c k s).0 ≡ some u
      → All (λ sec. is_attach sec ≡ false) rest
      → length (received_by secs) + length (received_by rest) < word
      → (es : List PendingEvent) × AreFrames es (frames_by rest (attach c k s).0)
        × Ascends 0 es u.next_key
        × All (IsReceived (received_by secs ++ received_by rest)) es
  unfolding new_session attach Continues
  attached-AreFrames ref secs rest k s u before after none_attach small =
      let all = received_by secs ++ received_by rest in
      let start = nil-Ascends 0 0 (omega arith) in
      let first = run-IsOrdered secs (new_session ref) s before (omega (arith, small)) start in
      let starts : Continues all 0 secs = λ j raw at.
        ap (get_elem? all) (omega arith)
        ∙ get_elem?-append_left (received_by secs) (received_by rest) j raw at in
      let held =
        run-InStep all secs (new_session ref) s before (omega (arith, small)) start tt starts in
      let goes_on : Continues all s.next_key rest = λ j raw at.
        ap (λ n. get_elem? all (n + j)) (omega (arith, first.next))
        ∙ get_elem?-append_right (received_by secs) (received_by rest) j
        ∙ at in
      run-AreFrames all rest (attach c k s).0 u after none_attach (omega (arith, small, first.next))
        first.ordered held goes_on
