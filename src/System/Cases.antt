-- ===== src/System/Cases.antt =====
-- What the regions of cmd/egress-broker/registry.go do to the current sink.
use substrate_ws_poc.Prelude.{Bool, true, false, none, some, ◌≡◌, arith, ◌⊎◌, nat_eq}
use substrate_ws_poc.Prelude.Bytes.{bytes_eq}
use substrate_ws_poc.SocketMode.{Json}
use substrate_ws_poc.Session.State.{Config, Session, Task}
use substrate_ws_poc.Session.Ops.{
  note_activity, on_idle, suspend_failed, begin_forward, end_forward, ensure_started, resume_failed,
  close, detach, ack, arm_fallback,
}
use substrate_ws_poc.Session.Sections.{Section, attaches, delivers, receives, exec}
use substrate_ws_poc.Session.Cases.{delivered, held, left, on_event-Arrival}

-- The sink is kept or dropped, and a connection is not settled anew.
pub record KeepsSink (s t : Session) : Type 0 where
  pub sink : (t.sink ≡ s.sink) ⊎ (t.sink ≡ none)
  pub settled : t.settled ≡ true → s.settled ≡ true
  pub same : t.settled ≡ true → t.sink ≡ s.sink

abbrev pub keeps_sink : Section → Bool
keeps_sink (attaches k) = false
keeps_sink (delivers ids k) = false
keeps_sink _ = true

pub exec-KeepsSink :
    ⦃json : Json⦄ (c : Config) (sec : Section) (s t : Session) (task : Task)
    → keeps_sink sec ≡ true
    → exec c sec s ≡ some (t, task)
    → KeepsSink s t
unfolding exec note_activity on_idle suspend_failed begin_forward end_forward ensure_started
    resume_failed close detach ack arm_fallback
exec-KeepsSink c (attaches k) s t task h e = cc
exec-KeepsSink c (delivers ids k) s t task h e = cc
exec-KeepsSink c (receives raw fresh) s t task h e = elim (on_event-Arrival raw fresh s t task e) [
  | delivered _ _ here settled out now next ↦ ground arith
  | held _ here settled now next ↦ ground arith
  | left away now next ↦ ground arith
]
exec-KeepsSink c _ s t task h e = ground arith

pub KeepsSink-same : (s t : Session) → t ≡ s → KeepsSink s t
KeepsSink-same s t e = ground arith
