-- ===== src/Session/Cases.antt =====
-- The outcomes of the locked regions of cmd/egress-broker/registry.go, as equations.
use substrate_ws_poc.Prelude.{
  ℕ, Bool, true, false, not, ◌&&◌, ◌||◌, List, [], ◌∷◌, ◌++◌, none, some, ◌≡◌, arith, ◌==◌, nat_eq,
  if◌then◌else◌, Bool-cases, Option-cases, inl, inr, is_none, ◌⊎◌,
}
use substrate_ws_poc.Prelude.Bytes.{Bytes, bytes_eq}
use substrate_ws_poc.Prelude.Dict.{lookup, insert}
use substrate_ws_poc.SocketMode.{Json, rewrite_envelope_id}
use substrate_ws_poc.Session.State.{Config, Session, Task, done, write, note, resume, increment}
use substrate_ws_poc.Session.Ops.{
  note_activity, on_idle, suspend_failed, begin_forward, end_forward, ensure_started, resume_failed,
  close, detach, ack, attach, arm_fallback, deliver_buffered, on_event, remove_key, is_current,
}
use substrate_ws_poc.Session.Frame.{build_event_frames_lem, rewritten_frames, register}
use substrate_ws_poc.Session.Sections.{Section, acks, delivers, receives, exec}

-- The regions that leave the events alone.
abbrev pub is_quiet : Section → Bool
is_quiet (acks id) = false
is_quiet (delivers ids k) = false
is_quiet (receives raw fresh) = false
is_quiet _ = true

pub record SameEvents (s t : Session) : Type 0 where
  pub next_key : t.next_key ≡ s.next_key
  pub buffer : t.buffer ≡ s.buffer
  pub fresh_ids : t.fresh_ids ≡ s.fresh_ids

module _ ⦃json : Json⦄ where
  pub quiet-SameEvents :
      (c : Config) (sec : Section) (s t : Session) (k : Task)
      → is_quiet sec ≡ true
      → exec c sec s ≡ some (t, k)
      → SameEvents s t
  unfolding exec note_activity on_idle suspend_failed begin_forward end_forward ensure_started
      resume_failed close detach attach arm_fallback
  quiet-SameEvents c (receives raw fresh) s t k q e = cc
  quiet-SameEvents c (acks id) s t k q e = cc
  quiet-SameEvents c (delivers ids j) s t k q e = cc
  quiet-SameEvents c _ s t k q e = ground arith

  -- `deliverBufferedNow` does nothing, or it stamps the whole buffer.
  pub data Delivery (ids : ℕ → Bytes) (k : ℕ) (s t : Session) (task : Task) : Type 0 where
    skipped :
        (is_current k s.sink ≡ false) ⊎ (s.settled ≡ true)
        → t ≡ s
        → task ≡ done
        → Delivery ids k s t task
    stamped :
        (frames : List Bytes)
        → is_current k s.sink ≡ true
        → s.settled ≡ false
        → rewritten_frames ids 0 s.buffer ≡ some frames
        → t ≡ record s {
          settled = true;
          deliver_tmr = none;
          fresh_ids = register ids 0 s.buffer s.fresh_ids;
        }
        → task ≡ write k frames note
        → Delivery ids k s t task

  pub deliver_buffered-Delivery :
      (ids : ℕ → Bytes) (k : ℕ) (s t : Session) (task : Task)
      → deliver_buffered ids k s ≡ some (t, task)
      → Delivery ids k s t task
  unfolding deliver_buffered
  deliver_buffered-Delivery ids k s t task e =
      let built =
        build_event_frames_lem ids 0 s.buffer (record s { settled = true; deliver_tmr = none }) in
      elim (Bool-cases (not (is_current k s.sink) || s.settled)) [
        | inl skip ↦ skipped (ground arith) (ground arith) (ground arith)
        | inr go ↦ elim (Option-cases (rewritten_frames ids 0 s.buffer)) [
          | inl panics ↦ absurd (ground (arith, built))
          | inr (frames, here) ↦
              stamped frames (ground arith) (ground arith) here (ground (arith, built))
                (ground (arith, built))
        ]
      ]

  -- The session once an event is buffered.
  abbrev pub buffered : Bytes → Session → Session
  buffered raw s = record s {
    next_key = increment s.next_key;
    buffer = s.buffer ++ record { key = s.next_key; raw = raw } ∷ [];
    resuming = if is_none s.sink && not s.resuming then true else s.resuming;
  }

  -- An event is delivered at once to a settled sink, held for a sink that is not settled, or left
  -- for the actor that is resumed.
  pub data Arrival (raw fresh : Bytes) (s t : Session) (task : Task) : Type 0 where
    delivered :
        (k : ℕ) (frame : Bytes)
        → s.sink ≡ some k
        → s.settled ≡ true
        → rewrite_envelope_id raw fresh ≡ some frame
        → t ≡ record (buffered raw s) { fresh_ids = insert fresh s.next_key s.fresh_ids }
        → task ≡ write k (frame ∷ []) note
        → Arrival raw fresh s t task
    held :
        (k : ℕ)
        → s.sink ≡ some k
        → s.settled ≡ false
        → t ≡ buffered raw s
        → task ≡ done
        → Arrival raw fresh s t task
    left :
        s.sink ≡ none
        → t ≡ buffered raw s
        → task ≡ (if s.resuming then done else resume)
        → Arrival raw fresh s t task

  pub on_event-Arrival :
      (raw fresh : Bytes) (s t : Session) (task : Task)
      → on_event raw fresh s ≡ some (t, task)
      → Arrival raw fresh s t task
  unfolding on_event
  on_event-Arrival raw fresh s t task e = elim (Option-cases s.sink) [
    | inl away ↦ left away (ground arith) (ground arith)
    | inr (k, here) ↦ elim (Bool-cases s.settled) [
      | inr unsettled ↦ held k here unsettled (ground arith) (ground arith)
      | inl settled ↦ elim (Option-cases (rewrite_envelope_id raw fresh)) [
        | inl panics ↦ absurd (ground arith)
        | inr (frame, out) ↦ delivered k frame here settled out (ground arith) (ground arith)
      ]
    ]
  ]

-- An acknowledgement removes one event or none.
pub ack_buffer :
    (c : Config) (id : Bytes) (s : Session)
    → ((ack c id s).buffer ≡ s.buffer) ⊎ ((k : ℕ) × ((ack c id s).buffer ≡ remove_key k s.buffer))
unfolding ack
ack_buffer c id s = elim (Bool-cases (id == [])) [
  | inl empty ↦ inl (rw (empty, ack))
  | inr named ↦ elim (Option-cases (lookup id s.fresh_ids)) [
    | inl unknown ↦ inl (rw (named, unknown, ack))
    | inr (k, known) ↦ inr (k, ground arith)
  ]
]
