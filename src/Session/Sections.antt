-- ===== src/Session/Sections.antt =====
-- One type for the locked regions of cmd/egress-broker/registry.go, and their effect.
use substrate_ws_poc.Prelude.{ℕ, Option, some, ◌>>=◌}
use substrate_ws_poc.Prelude.Bytes.{Bytes}
use substrate_ws_poc.SocketMode.{Json}
use substrate_ws_poc.Session.State.{Config, Session, Task, done}
use substrate_ws_poc.Session.Ops.{
  note_activity, on_idle, suspend_failed, begin_forward, end_forward, ensure_started, resume_failed,
  close, detach, ack, attach, arm_fallback, deliver_buffered, on_event,
}

pub data Section : Type 0 where
  notes_activity : Section
  idles : Section
  fails_suspend : Section
  begins_forward : Section
  ends_forward : Section
  starts : Bytes → Section
  fails_resume : Section
  closes : Section
  detaches : ℕ → Section
  acks : Bytes → Section
  attaches : ℕ → Section
  arms_fallback : ℕ → Section
  delivers : (ℕ → Bytes) → ℕ → Section
  receives : Bytes → Bytes → Section  -- the event's text, and the id for it

module _ ⦃json : Json⦄ where
  -- `none` is a panic.
  unfoldable pub exec : Config → Section → Session → Option (Session × Task)
  exec c notes_activity s = some (note_activity c s, done)
  exec c idles s = some (on_idle s)
  exec c fails_suspend s = some (suspend_failed c s, done)
  exec c begins_forward s = some (begin_forward s, done)
  exec c ends_forward s = some (end_forward c s, done)
  exec c (starts token) s = some (ensure_started token s)
  exec c fails_resume s = some (resume_failed s, done)
  exec c closes s = close s >>= λ t. some (t, done)
  exec c (detaches k) s = some (detach k s, done)
  exec c (acks id) s = some (ack c id s, done)
  exec c (attaches k) s = some (attach c k s)
  exec c (arms_fallback k) s = some (arm_fallback k s, done)
  exec c (delivers ids k) s = deliver_buffered ids k s
  exec c (receives raw fresh) s = on_event raw fresh s
