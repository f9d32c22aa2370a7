-- ===== src/Session/Written.antt =====
-- The frames that a region of cmd/egress-broker/registry.go hands to `writeToSink`.
use substrate_ws_poc.Prelude.{
  ℕ, ◌+◌, true, false, List, [], ◌∷◌, ◌++◌, some, ◌≡◌, refl, arith, nat_eq, inl, inr, >>=-eq-some,
  subst,
}
use substrate_ws_poc.Prelude.Bytes.{Bytes, bytes_eq}
use substrate_ws_poc.SocketMode.{Json, rewrite_envelope_id}
use substrate_ws_poc.Session.Frame.{rewritten_frames}
use substrate_ws_poc.Session.State.{Config, Session, PendingEvent, Task, write}
use substrate_ws_poc.Session.Ops.{on_idle, ensure_started, close}
use substrate_ws_poc.Session.Sections.{Section, attaches, delivers, receives, acks, exec}
use substrate_ws_poc.Session.Cases.{
  is_quiet, skipped, stamped, deliver_buffered-Delivery, delivered, held, left, on_event-Arrival,
}
use substrate_ws_poc.Session.Ascends.{sent}
use substrate_ws_poc.Session.Sends.{
  is_attach, sent-skipped, sent-stamped, sent-delivered, sent-held,
}

-- The frames of some events under new ids.
pub data AreFrames ⦃json : Json⦄ : List PendingEvent → List Bytes → Type 0 where
  no_frames : AreFrames [] []
  one_more :
      (e : PendingEvent) (fresh frame : Bytes) (es : List PendingEvent) (frames : List Bytes)
      → rewrite_envelope_id e.raw fresh ≡ some frame
      → AreFrames es frames
      → AreFrames (e ∷ es) (frame ∷ frames)

abbrev pub frames_of : Task → List Bytes
frames_of (write k frames rest) = frames
frames_of _ = []

module _ ⦃json : Json⦄ where
  pub AreFrames-append :
      (es fs : List PendingEvent) (xs ys : List Bytes)
      → AreFrames es xs
      → AreFrames fs ys
      → AreFrames (es ++ fs) (xs ++ ys)
  AreFrames-append _ fs _ ys no_frames r = r
  AreFrames-append _ fs _ ys (one_more e fresh frame es frames here h) r =
      one_more e fresh frame (es ++ fs) (frames ++ ys) here (AreFrames-append es fs frames ys h r)

  pub rewritten-AreFrames :
      (ids : ℕ → Bytes) (i : ℕ) (es : List PendingEvent) (frames : List Bytes)
      → rewritten_frames ids i es ≡ some frames
      → AreFrames es frames
  unfolding rewritten_frames
  rewritten-AreFrames ids i [] frames h =
      let same : [] ≡ frames = cc in subst (AreFrames []) same no_frames
  rewritten-AreFrames ids i (e ∷ es) frames h =
      let (frame, here, later) = >>=-eq-some (rewrite_envelope_id e.raw (ids i)) _ h in
      let (rest, there, out) = >>=-eq-some (rewritten_frames ids (i + 1) es) _ later in
      let same : frame ∷ rest ≡ frames = cc in
      subst (AreFrames (e ∷ es)) same
        (one_more e (ids i) frame es rest here (rewritten-AreFrames ids (i + 1) es rest there))

module _ ⦃json : Json⦄ (c : Config) where
  delivers-AreFrames :
      (ids : ℕ → Bytes) (k : ℕ) (s t : Session) (task : Task)
      → exec c (delivers ids k) s ≡ some (t, task)
      → AreFrames (sent (delivers ids k) s) (frames_of task)
  unfolding exec
  delivers-AreFrames ids k s t task e = elim (deliver_buffered-Delivery ids k s t task e) [
    | skipped why same now ↦ rw (sent-skipped ids k s why, now) no_frames
    | stamped frames cur unsettled out same now ↦
        rw (sent-stamped ids k s cur unsettled, now) (rewritten-AreFrames ids 0 s.buffer frames out)
  ]

  receives-AreFrames :
      (raw fresh : Bytes) (s t : Session) (task : Task)
      → exec c (receives raw fresh) s ≡ some (t, task)
      → AreFrames (sent (receives raw fresh) s) (frames_of task)
  unfolding exec
  receives-AreFrames raw fresh s t task e = elim (on_event-Arrival raw fresh s t task e) [
    | delivered k frame here settled out same now ↦
        rw (sent-delivered raw fresh k s here settled, now)
          (one_more _ fresh frame [] [] out no_frames)
    | held k here unsettled same now ↦ rw (sent-held raw fresh s (inr unsettled), now) no_frames
    | left away same now ↦
        let quiet : frames_of task ≡ [] = ground (arith, now) in
        rw (sent-held raw fresh s (inl away), quiet) no_frames
  ]

  quiet-frames_of :
      (sec : Section) (s t : Session) (task : Task)
      → is_quiet sec ≡ true
      → is_attach sec ≡ false
      → exec c sec s ≡ some (t, task)
      → frames_of task ≡ []
  unfolding exec on_idle ensure_started close
  quiet-frames_of (receives raw fresh) s t task q a e = cc
  quiet-frames_of (acks id) s t task q a e = cc
  quiet-frames_of (delivers ids k) s t task q a e = cc
  quiet-frames_of (attaches k) s t task q a e = cc
  quiet-frames_of _ s t task q a e = ground arith

  acks-frames_of :
      (id : Bytes) (s t : Session) (task : Task)
      → exec c (acks id) s ≡ some (t, task)
      → frames_of task ≡ []
  unfolding exec
  acks-frames_of id s t task e = ground arith

  pub exec-AreFrames :
      (sec : Section) (s t : Session) (task : Task)
      → exec c sec s ≡ some (t, task)
      → is_attach sec ≡ false
      → AreFrames (sent sec s) (frames_of task)
  unfolding sent
  exec-AreFrames (delivers ids k) s t task e a = delivers-AreFrames ids k s t task e
  exec-AreFrames (receives raw fresh) s t task e a = receives-AreFrames raw fresh s t task e
  exec-AreFrames (acks id) s t task e a = rw (acks-frames_of id s t task e) no_frames
  exec-AreFrames sec s t task e a = rw (quiet-frames_of sec s t task refl a e) no_frames
