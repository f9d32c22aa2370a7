-- ===== src/Session/Texts.antt =====
-- The texts that a session of cmd/egress-broker/registry.go holds, and the frames that it makes of
-- them: a predicate on the texts that come is one on the whole buffer and on every frame.
use substrate_ws_poc.Prelude.{
  ℕ, Bool, true, false, List, [], ◌∷◌, some, ◌≡◌, refl, sym, arith, nat_eq, subst, length, ltb,
  ◌==◌, if◌then◌else◌, inl, inr, All, All-append,
}
use substrate_ws_poc.Prelude.Bytes.{Bytes, bytes_eq}
use substrate_ws_poc.SocketMode.{Json, rewrite_envelope_id}
use substrate_ws_poc.Session.State.{Config, Session, PendingEvent, Task, done, write, deliver, arm}
use substrate_ws_poc.Session.Ops.{
  on_idle, ensure_started, close, ack, attach, remove_key, deliver_buffered, on_event,
}
use substrate_ws_poc.Session.Sections.{Section, attaches, delivers, receives, acks, exec}
use substrate_ws_poc.Session.Cases.{
  is_quiet, quiet-SameEvents, skipped, stamped, deliver_buffered-Delivery, delivered, held, left,
  on_event-Arrival, ack_buffer,
}
use substrate_ws_poc.Session.Sends.{is_attach}
use substrate_ws_poc.Session.Written.{AreFrames, no_frames, one_more, rewritten-AreFrames}

-- The hello, or one of the texts under a new id.
pub data IsFrameOf ⦃json : Json⦄ (hello : Bytes) (P : Bytes → Type 0) : Bytes → Type 0 where
  greets : IsFrameOf hello P hello
  tells :
      (raw fresh frame : Bytes)
      → P raw
      → rewrite_envelope_id raw fresh ≡ some frame
      → IsFrameOf hello P frame

abbrev pub HoldsTexts : (Bytes → Type 0) → List PendingEvent → Type 0
HoldsTexts P es = All (λ e. P e.raw) es

-- The texts that come with a region.
abbrev pub ComesWith : (Bytes → Type 0) → Section → Type 0
ComesWith P (receives raw fresh) = P raw
ComesWith P _ = Unit

abbrev is_write : Task → Bool
is_write (write k frames t) = true
is_write _ = false

remove_key-HoldsTexts :
    (P : Bytes → Type 0) (k : ℕ) (es : List PendingEvent)
    → HoldsTexts P es
    → HoldsTexts P (remove_key k es)
unfolding remove_key
remove_key-HoldsTexts P k [] h = tt
remove_key-HoldsTexts P k (e ∷ es) h = ground (arith, remove_key-HoldsTexts P k es h.1)

module _ ⦃json : Json⦄ (hello : Bytes) (P : Bytes → Type 0) where
  -- Every frame that a goroutine still has to write.
  abbrev pub WritesFrames : Task → Type 0
  WritesFrames (write k frames t) = All (IsFrameOf hello P) frames × WritesFrames t
  WritesFrames _ = Unit

  no_write-WritesFrames : (t : Task) → is_write t ≡ false → WritesFrames t
  no_write-WritesFrames (write k frames t) h = cc
  no_write-WritesFrames _ h = tt

  AreFrames-All :
      (es : List PendingEvent) (frames : List Bytes)
      → AreFrames es frames
      → HoldsTexts P es
      → All (IsFrameOf hello P) frames
  AreFrames-All _ _ no_frames h = tt
  AreFrames-All _ _ (one_more e fresh frame es frames here later) h =
      (tells e.raw fresh frame h.0 here, AreFrames-All es frames later h.1)

-- The session holds such texts only, and the goroutine goes on with such frames only.
pub record Keeps ⦃json : Json⦄ (hello : Bytes) (P : Bytes → Type 0) (t : Session) (task : Task)
    : Type 0 where
  pub texts : HoldsTexts P t.buffer
  pub frames : WritesFrames hello P task

module _ ⦃json : Json⦄ (c : Config) (P : Bytes → Type 0) where
  quiet-no_write :
      (sec : Section) (s t : Session) (task : Task)
      → is_quiet sec ≡ true
      → is_attach sec ≡ false
      → exec c sec s ≡ some (t, task)
      → is_write task ≡ false
  unfolding exec on_idle ensure_started close
  quiet-no_write (receives raw fresh) s t task q a e = cc
  quiet-no_write (acks id) s t task q a e = cc
  quiet-no_write (delivers ids k) s t task q a e = cc
  quiet-no_write (attaches k) s t task q a e = cc
  quiet-no_write _ s t task q a e = ground arith

  quiet-Keeps :
      (sec : Section) (s t : Session) (task : Task)
      → is_quiet sec ≡ true
      → is_attach sec ≡ false
      → exec c sec s ≡ some (t, task)
      → HoldsTexts P s.buffer
      → Keeps c.hello_frame P t task
  quiet-Keeps sec s t task q a e h = record {
    texts = subst (HoldsTexts P) (sym (quiet-SameEvents c sec s t task q e).buffer) h;
    frames = no_write-WritesFrames c.hello_frame P task (quiet-no_write sec s t task q a e);
  }

  pub attach-Keeps :
      (k : ℕ) (s : Session)
      → HoldsTexts P s.buffer
      → Keeps c.hello_frame P (attach c k s).0 (attach c k s).1
  unfolding attach
  attach-Keeps k s h =
      let free : is_write (
            if length s.buffer == 0
            then deliver k
            else if ltb 0 c.deliver_delay
            then arm k
            else done)
          ≡ false =
        ground arith in
      record { texts = h; frames = ((greets, tt), no_write-WritesFrames c.hello_frame P _ free) }

  ack-Keeps :
      (id : Bytes) (s : Session) → HoldsTexts P s.buffer → Keeps c.hello_frame P (ack c id s) done
  ack-Keeps id s h = record {
    texts = elim (ack_buffer c id s) [
      | inl same ↦ rw same h
      | inr (k, gone) ↦ rw gone (remove_key-HoldsTexts P k s.buffer h)
    ];
    frames = tt;
  }

  delivers-Keeps :
      (ids : ℕ → Bytes) (k : ℕ) (s t : Session) (task : Task)
      → deliver_buffered ids k s ≡ some (t, task)
      → HoldsTexts P s.buffer
      → Keeps c.hello_frame P t task
  delivers-Keeps ids k s t task e h = elim (deliver_buffered-Delivery ids k s t task e) [
    | skipped why same next ↦ rw (same, next) (record { texts = h; frames = tt })
    | stamped frames cur unsettled out same next ↦
        rw (same, next)
          (record {
            texts = h;
            frames = (
              AreFrames-All c.hello_frame P s.buffer frames
                  (rewritten-AreFrames ids 0 s.buffer frames out) h,
              tt,
            );
          })
  ]

  receives-Keeps :
      (raw fresh : Bytes) (s t : Session) (task : Task)
      → on_event raw fresh s ≡ some (t, task)
      → P raw
      → HoldsTexts P s.buffer
      → Keeps c.hello_frame P t task
  receives-Keeps raw fresh s t task e p h =
      let all = All-append _ s.buffer (record { key = s.next_key; raw = raw } ∷ []) h (p, tt) in
      elim (on_event-Arrival raw fresh s t task e) [
        | delivered k frame here settled out same next ↦
            rw (same, next)
              (record { texts = all; frames = ((tells raw fresh frame p out, tt), tt) })
        | held k here settled same next ↦ rw (same, next) (record { texts = all; frames = tt })
        | left away same next ↦ rw same (record {
          texts = all;
          frames = no_write-WritesFrames c.hello_frame P task (ground (arith, next));
        })
      ]

  -- In every region: if the texts that come and that are buffered have the property, those that are
  -- then buffered have it, and what is written is the hello or one of them under a new id.
  pub exec-Keeps :
      (sec : Section) (s t : Session) (task : Task)
      → exec c sec s ≡ some (t, task)
      → ComesWith P sec
      → HoldsTexts P s.buffer
      → Keeps c.hello_frame P t task
  unfolding exec
  exec-Keeps (delivers ids k) s t task e p h = delivers-Keeps ids k s t task e h
  exec-Keeps (receives raw fresh) s t task e p h = receives-Keeps raw fresh s t task e p h
  exec-Keeps (acks id) s t task e p h =
      let same : ack c id s ≡ t = ground arith in
      let idle : task ≡ done = ground arith in
      rw idle (subst (λ u. Keeps c.hello_frame P u done) same (ack-Keeps id s h))
  exec-Keeps (attaches k) s t task e p h =
      let same : attach c k s ≡ (t, task) = ground arith in
      subst (λ u. Keeps c.hello_frame P u.0 u.1) same (attach-Keeps k s h)
  exec-Keeps sec s t task e p h = quiet-Keeps sec s t task refl refl e h
