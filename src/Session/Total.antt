-- ===== src/Session/Total.antt =====
-- Panics in the locked regions of cmd/egress-broker/registry.go, and the frames of a delivery.
use substrate_ws_poc.Prelude.{
  ℕ, ◌+◌, true, false, List, [], ◌∷◌, none, some, ◌≡◌, refl, arith, nat_eq, All, All-append,
  Option-cases, inl, inr, ◌≢◌, subst,
}
use substrate_ws_poc.Prelude.Bytes.{Bytes, bytes_eq}
use substrate_ws_poc.Actor.{ActorRef}
use substrate_ws_poc.SocketMode.{Json, JsonLaws}
use substrate_ws_poc.SocketMode.Rewrite.{IsEventFrame, IsRewritten, rewrite_envelope_id-IsRewritten}
use substrate_ws_poc.Session.State.{
  Config, Session, PendingEvent, Task, closed_chan, write, note, new_session,
}
use substrate_ws_poc.Session.Ops.{
  note_activity, on_idle, suspend_failed, begin_forward, end_forward, ensure_started, resume_failed,
  close, detach, ack, attach, arm_fallback, deliver_buffered, on_event, is_current, remove_key,
}
use substrate_ws_poc.Session.Frame.{register, rewritten_frames, build_event_frames_lem}
use substrate_ws_poc.Session.Sections.{Section, closes, acks, delivers, receives, exec}
use substrate_ws_poc.Session.Cases.{
  ack_buffer, is_quiet, quiet-SameEvents, skipped, stamped, deliver_buffered-Delivery, delivered,
  held, left, on_event-Arrival,
}
use substrate_ws_poc.Session.Runs.{run_sections}

module _ ⦃json : Json⦄ where
  -- The frames are the events in order, each under its id.
  abbrev pub AreRewritten : (ℕ → Bytes) → ℕ → List PendingEvent → List Bytes → Type 0
  AreRewritten ids i [] [] = Unit
  AreRewritten ids i (e ∷ es) (f ∷ fs) =
      IsRewritten e.raw (ids i) f × AreRewritten ids (i + 1) es fs
  AreRewritten ids i _ _ = ⊥

  abbrev pub AreEvents : List PendingEvent → Type 0
  AreEvents = All (λ e. IsEventFrame e.raw)

  pub rewritten_frames-AreRewritten :
      (laws : JsonLaws json) (ids : ℕ → Bytes) (i : ℕ) (es : List PendingEvent)
      → AreEvents es
      → (frames : List Bytes) × (rewritten_frames ids i es ≡ some frames)
        × AreRewritten ids i es frames
  unfolding rewritten_frames
  rewritten_frames-AreRewritten laws ids i [] h = ([], refl, tt)
  rewritten_frames-AreRewritten laws ids i (e ∷ es) h =
      let (f, here, good) = rewrite_envelope_id-IsRewritten laws e.raw (ids i) h.0 in
      let (fs, rest, goods) = rewritten_frames-AreRewritten laws ids (i + 1) es h.1 in
      (f ∷ fs, rw (here, rest), (good, goods))

  -- If the sink is current, the session not settled and every buffered event an event frame, the
  -- delivery sends the whole buffer to that sink, in order, the i-th event rewritten to the i-th
  -- new id, then notes the activity; the events stay buffered and the session is settled.
  pub deliver_buffered-AreRewritten :
      (laws : JsonLaws json) (ids : ℕ → Bytes) (k : ℕ) (s : Session)
      → AreEvents s.buffer
      → is_current k s.sink ≡ true
      → s.settled ≡ false
      → (t : Session) × (frames : List Bytes) × (deliver_buffered ids k s
          ≡ some (t, write k frames note))
        × AreRewritten ids 0 s.buffer frames
        × (t.buffer ≡ s.buffer)
        × (t.settled ≡ true)
  unfolding deliver_buffered
  deliver_buffered-AreRewritten laws ids k s events cur uns =
      let (frames, here, good) = rewritten_frames-AreRewritten laws ids 0 s.buffer events in
      let built =
        build_event_frames_lem ids 0 s.buffer (record s { settled = true; deliver_tmr = none }) in
      (
        record s {
          settled = true;
          deliver_tmr = none;
          fresh_ids = register ids 0 s.buffer s.fresh_ids;
        },
        frames,
        ground (arith, built),
        good,
        refl,
        refl,
      )

  pub record IsSafe (s : Session) : Type 0 where
    pub events : AreEvents s.buffer
    pub stoppable : s.closed ≡ false → s.stop ≢ closed_chan

  -- What `readSlackUntilClose` hands to `onEvent`.
  abbrev pub Handed : Section → Type 0
  Handed (receives raw fresh) = IsEventFrame raw
  Handed _ = Unit

  remove_key-AreEvents :
      (k : ℕ) (es : List PendingEvent) → AreEvents es → AreEvents (remove_key k es)
  unfolding remove_key
  remove_key-AreEvents k [] h = tt
  remove_key-AreEvents k (e ∷ es) h = ground (arith, remove_key-AreEvents k es h.1)

  quiet-IsSafe :
      (c : Config) (sec : Section) (s t : Session) (task : Task)
      → is_quiet sec ≡ true
      → exec c sec s ≡ some (t, task)
      → (s.closed ≡ false → s.stop ≢ closed_chan)
      → t.closed ≡ false
      → t.stop ≢ closed_chan
  unfolding exec note_activity on_idle suspend_failed begin_forward end_forward ensure_started
      resume_failed close detach attach arm_fallback
  quiet-IsSafe c (receives raw fresh) s t k q e h = cc
  quiet-IsSafe c (acks id) s t k q e h = cc
  quiet-IsSafe c (delivers ids j) s t k q e h = cc
  quiet-IsSafe c _ s t k q e h = ground arith

  acks-IsSafe : (c : Config) (id : Bytes) (s : Session) → IsSafe s → IsSafe (ack c id s)
  unfolding ack
  acks-IsSafe c id s v = record {
    events = elim (ack_buffer c id s) [
      | inl same ↦ rw same v.events
      | inr (k, gone) ↦ rw gone (remove_key-AreEvents k s.buffer v.events)
    ];
    stoppable = ground arith;
  }

  exec-IsSafe :
      (c : Config) (sec : Section) (s t : Session) (task : Task)
      → Handed sec
      → exec c sec s ≡ some (t, task)
      → IsSafe s
      → IsSafe t
  unfolding exec
  exec-IsSafe c (acks id) s t task h e v =
      let now : ack c id s ≡ t = ground arith in subst IsSafe now (acks-IsSafe c id s v)
  exec-IsSafe c (delivers ids k) s t task h e v =
      elim (deliver_buffered-Delivery ids k s t task e) [
        | skipped _ now _ ↦ rw now v
        | stamped _ _ _ _ now _ ↦ rw now (record { events = v.events; stoppable = v.stoppable })
      ]
  exec-IsSafe c (receives raw fresh) s t task h e v =
      let events =
        All-append _ s.buffer (record { key = s.next_key; raw = raw } ∷ []) v.events (h, tt) in
      elim (on_event-Arrival raw fresh s t task e) [
        | delivered _ _ _ _ _ now _ ↦ rw now (record { events = events; stoppable = v.stoppable })
        | held _ _ _ now _ ↦ rw now (record { events = events; stoppable = v.stoppable })
        | left _ now _ ↦ rw now (record { events = events; stoppable = v.stoppable })
      ]
  exec-IsSafe c sec s t task h e v = record {
    events = rw (quiet-SameEvents c sec s t task refl e).buffer v.events;
    stoppable = quiet-IsSafe c sec s t task refl e v.stoppable;
  }

  exec-ne-none :
      (laws : JsonLaws json) (c : Config) (sec : Section) (s : Session)
      → Handed sec
      → IsSafe s
      → exec c sec s ≢ none
  unfolding exec on_event deliver_buffered close
  exec-ne-none laws c (receives raw fresh) s h v =
      let (f, here, good) = rewrite_envelope_id-IsRewritten laws raw fresh h in ground (arith, here)
  exec-ne-none laws c (delivers ids k) s h v =
      let (frames, here, good) = rewritten_frames-AreRewritten laws ids 0 s.buffer v.events in
      let built =
        build_event_frames_lem ids 0 s.buffer (record s { settled = true; deliver_tmr = none }) in
      ground (arith, here, built)
  exec-ne-none laws c closes s h v = ground (arith, v.stoppable)
  exec-ne-none laws c _ s h v = cc

  -- If encoding/json behaves as documented, only event frames are handed to `onEvent` and the session
  -- is safe at the start, then no sequence of locked regions panics, and the session stays safe: no
  -- id is assigned in a nil map, and no closed channel is closed again.
  pub run_sections_total :
      (laws : JsonLaws json) (c : Config) (secs : List Section) (s : Session)
      → All Handed secs
      → IsSafe s
      → (t : Session) × (run_sections c secs s ≡ some t) × IsSafe t
  unfolding run_sections
  run_sections_total laws c [] s h v = (s, refl, v)
  run_sections_total laws c (sec ∷ rest) s h v = elim (Option-cases (exec c sec s)) [
    | inl panics ↦ absurd (exec-ne-none laws c sec s h.0 v panics)
    | inr ((m, task), here) ↦
        let safe = exec-IsSafe c sec s m task h.0 here v in
        let (t, later, end) = run_sections_total laws c rest m h.1 safe in (t, rw here later, end)
  ]

  pub new_session-IsSafe : (ref : ActorRef) → IsSafe (new_session ref)
  unfolding new_session
  new_session-IsSafe ref = record { events = tt; stoppable = ground arith }
