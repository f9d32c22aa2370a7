-- ===== src/Session/Runs.antt =====
-- Every interleaving of the locked regions of cmd/egress-broker/registry.go.
use substrate_ws_poc.Prelude.{
  ◌≤◌, List, [], ◌∷◌, ◌++◌, Option, some, ◌>>=◌, ◌≡◌, refl, arith, length, ◌∙◌, >>=-eq-some, sym,
  none, subst, keep,
}
use mathlib.Core.List.{append_assoc, append-nil}
use substrate_ws_poc.Prelude.Bytes.{Bytes}
use substrate_ws_poc.Actor.{ActorRef}
use substrate_ws_poc.SocketMode.{Json}
use substrate_ws_poc.Session.State.{Config, Session, Task, word, new_session}
use substrate_ws_poc.Session.Sections.{Section, receives, acks, exec}
use substrate_ws_poc.Session.Outbox.{History, outstanding, number, post, settle}
use substrate_ws_poc.Session.Refines.{advance, Refines, exec-Refines}

-- The events' texts among the regions.
unfoldable pub received_by : List Section → List Bytes
received_by [] = []
received_by (receives raw fresh ∷ rest) = raw ∷ received_by rest
received_by (sec ∷ rest) = received_by rest

module _ ⦃json : Json⦄ (c : Config) where
  -- The regions in the order in which they get the mutex; `none` is a panic.
  unfoldable pub run_sections : List Section → Session → Option Session
  run_sections [] s = some s
  run_sections (sec ∷ rest) s = exec c sec s >>= λ (t, task). run_sections rest t

  -- The history of a run, up to a panic.
  unfoldable pub history_after : List Section → Session → History → History
  history_after [] s h = h
  history_after (sec ∷ rest) s h = elim (exec c sec s) [
    | none ↦ h
    | some (t, task) ↦ history_after rest t (advance sec s h)
  ]

  -- The invariant rule.
  pub run_inv {κ} :
      (P : Session → Type κ)
      → ((sec : Section) (s t : Session) (task : Task) → exec c sec s ≡ some (t, task) → P s → P t)
      → (secs : List Section) (s t : Session) → run_sections secs s ≡ some t
      → P s
      → P t
  unfolding run_sections
  run_inv P keep [] s t e p = let same : s ≡ t = cc in subst P same p
  run_inv P keep (sec ∷ rest) s t e p =
      let ((m, task), here, later) = >>=-eq-some (exec c sec s) _ e in
      run_inv P keep rest m t later (keep sec s m task here p)

  advance-received :
      (sec : Section) (rest : List Section) (s : Session) (h : History)
      → (advance sec s h).received ++ received_by rest ≡ h.received ++ received_by (sec ∷ rest)
  unfolding advance received_by post settle
  advance-received (receives raw fresh) rest s h = append_assoc h.received (raw ∷ []) _
  advance-received (acks id) rest s h = ground arith
  advance-received _ rest s h = refl

  pub history_after-received :
      (secs : List Section) (s t : Session) (h : History)
      → run_sections secs s ≡ some t
      → (history_after secs s h).received ≡ h.received ++ received_by secs
  unfolding run_sections history_after received_by
  history_after-received [] s t h e = sym (append-nil h.received)
  history_after-received (sec ∷ rest) s t h e =
      let ((m, task), here, later) = >>=-eq-some (exec c sec s) _ e in
      rw (here, history_after)
        (history_after-received rest m t (advance sec s h) later ∙ advance-received sec rest s h)

  pub run-Refines :
      (secs : List Section) (s t : Session) (h : History)
      → run_sections secs s ≡ some t
      → Refines h s
      → Refines (history_after secs s h) t
  unfolding run_sections history_after
  run-Refines [] s t h e r = let same : s ≡ t = cc in subst (Refines h) same r
  run-Refines (sec ∷ rest) s t h e r =
      let ((m, task), here, later) = >>=-eq-some (exec c sec s) _ e in
      rw (here, history_after)
        (run-Refines rest m t (advance sec s h) later (exec-Refines c sec h s m task here r))

abbrev pub no_history : History
no_history = record { received = []; acked = [] }

new_session-Refines : (ref : ActorRef) → Refines no_history (new_session ref)
unfolding new_session outstanding keep number
new_session-Refines ref = record {
  counted = refl;
  below = λ small. tt;
  buffered = λ small. refl;
  live = tt;
  mapped = tt;
}

-- After any sequence of locked regions of a new session that does not panic, with at most 2^64
-- events received, the buffer holds the events received and not acknowledged, in the order of
-- their arrival, and the events received are those handed to `onEvent`.
pub buffer-outstanding :
    ⦃json : Json⦄ (c : Config) (ref : ActorRef) (secs : List Section) (t : Session)
    → run_sections c secs (new_session ref) ≡ some t
    → length (received_by secs) ≤ word
    → let h = history_after c secs (new_session ref) no_history in
      (t.buffer ≡ outstanding h) × (h.received ≡ received_by secs)
buffer-outstanding c ref secs t e small =
    let r = run-Refines c secs (new_session ref) t no_history e (new_session-Refines ref) in
    let all = history_after-received c secs (new_session ref) t no_history e in
    (r.buffered (rw all small), all)
