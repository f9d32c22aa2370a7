-- ===== src/System/Texts.antt =====
-- What the goroutines of cmd/egress-broker/registry.go write: the hello, or a text that came for
-- their session under a new id.
use substrate_ws_poc.Prelude.{
  true, false, [], ◌∷◌, some, ◌≡◌, sym, arith, nat_eq, subst, >>=-eq-some, All, Bool-cases, inl,
  inr,
}
use substrate_ws_poc.Prelude.Bytes.{Bytes, bytes_eq}
use substrate_ws_poc.SocketMode.{Json}
use substrate_ws_poc.Session.State.{
  Config, Task, done, write, deliver, note, arm, resume, suspend, run_slack,
}
use substrate_ws_poc.Session.Ops.{is_current}
use substrate_ws_poc.Session.Sections.{
  Section, notes_activity, detaches, arms_fallback, delivers, receives, acks,
}
use substrate_ws_poc.Session.Texts.{IsFrameOf, HoldsTexts, ComesWith, WritesFrames, exec-Keeps}
use substrate_ws_poc.System.State.{
  Shared, Place, runs, writing, sending, gone, Role, serves, listens,
}
use substrate_ws_poc.System.Steps.{
  Choice, goes, fails, beats, confirms, leaves, hears, rest_of, region, wait, move, logged,
}
use substrate_ws_poc.System.Refines.{heard, events_of}
use substrate_ws_poc.System.Regions.{region-exec}

module _ ⦃json : Json⦄ (hello : Bytes) (P : Bytes → Type 0) where
  -- Every frame that a goroutine at this place still has to write.
  abbrev pub StandsWith : Place → Type 0
  StandsWith (runs t) = WritesFrames hello P t
  StandsWith (writing k frames t) = All (IsFrameOf hello P) frames × WritesFrames hello P t
  StandsWith (sending k f frames t) =
      IsFrameOf hello P f × All (IsFrameOf hello P) frames × WritesFrames hello P t
  StandsWith gone = Unit

  -- The session's buffer, and what has been written.
  pub record Shares (sh : Shared) : Type 0 where
    pub buffer : HoldsTexts P sh.session.buffer
    pub log : All (λ w. IsFrameOf hello P w.frame) sh.log

  pub rest_of-WritesFrames : (t : Task) → WritesFrames hello P t → WritesFrames hello P (rest_of t)
  rest_of-WritesFrames resume h = tt
  rest_of-WritesFrames suspend h = tt
  rest_of-WritesFrames run_slack h = tt
  rest_of-WritesFrames t h = h

-- After a goroutine's step.
pub record Stepped ⦃json : Json⦄ (hello : Bytes) (P : Bytes → Type 0) (sh : Shared) (p : Place)
    : Type 0 where
  pub shares : Shares hello P sh
  pub place : StandsWith hello P p

module _ ⦃json : Json⦄ (c : Config) (P : Bytes → Type 0) where
  region-Stepped :
      (sec : Section) (sh sh' : Shared) (p : Place)
      → region c sh sec ≡ some (sh', p)
      → ComesWith P sec
      → Shares c.hello_frame P sh
      → Stepped c.hello_frame P sh' p
  region-Stepped sec sh sh' p e came v =
      let (t, task, here, now, place) = region-exec c sh sh' sec p e in
      let k = exec-Keeps c P sec sh.session t task here came v.buffer in
      rw (now, place)
        (record {
          shares = record { buffer = k.texts; log = v.log };
          place = rest_of-WritesFrames c.hello_frame P task k.frames;
        })

  wait-Stepped :
      (r : Role) (ch : Choice) (sh sh' : Shared) (p : Place)
      → wait c r ch sh ≡ some (sh', p)
      → All P (events_of (heard ch))
      → Shares c.hello_frame P sh
      → Stepped c.hello_frame P sh' p
  unfolding wait events_of
  wait-Stepped (serves k) beats sh sh' p e came v =
      let now : sh ≡ sh' = ground arith in
      let there : runs (deliver k) ≡ p = ground arith in
      subst (λ s. Stepped c.hello_frame P s p) now
        (subst (Stepped c.hello_frame P sh) there (record { shares = v; place = tt }))
  wait-Stepped (serves k) (confirms id) sh sh' p e came v = region-Stepped (acks id) sh sh' p e tt v
  wait-Stepped (serves k) leaves sh sh' p e came v =
      let ((u, q), here, out) = >>=-eq-some (region c sh (detaches k)) _ e in
      let now : u ≡ sh' = ground arith in
      let there : gone ≡ p = ground arith in
      let s = region-Stepped (detaches k) sh u q here tt v in
      subst (λ s. Stepped c.hello_frame P s p) now
        (subst (Stepped c.hello_frame P u) there (record { shares = s.shares; place = tt }))
  wait-Stepped listens (hears raw fresh) sh sh' p e came v =
      region-Stepped (receives raw fresh) sh sh' p e came.0 v
  wait-Stepped _ _ sh sh' p e came v = cc

  same-Stepped :
      (sh sh' : Shared) (p p' : Place)
      → sh ≡ sh'
      → p ≡ p'
      → Stepped c.hello_frame P sh p
      → Stepped c.hello_frame P sh' p'
  same-Stepped sh sh' p p' now there s = rw (sym now, sym there) s

  pub move-Stepped :
      (r : Role) (ch : Choice) (p : Place) (sh sh' : Shared) (p' : Place)
      → move c r ch p sh ≡ some (sh', p')
      → All P (events_of (heard ch))
      → Shares c.hello_frame P sh
      → StandsWith c.hello_frame P p
      → Stepped c.hello_frame P sh' p'
  unfolding move
  move-Stepped r ch (runs done) sh sh' p' e came v h = wait-Stepped r ch sh sh' p' e came v
  move-Stepped r (goes ids) (runs (write k frames t)) sh sh' p' e came v h =
      same-Stepped (record sh { locked = true }) sh' (writing k frames t) p' (ground arith)
        (ground arith) (record { shares = record { buffer = v.buffer; log = v.log }; place = h })
  move-Stepped r (goes ids) (runs (deliver k)) sh sh' p' e came v h =
      region-Stepped (delivers ids k) sh sh' p' e tt v
  move-Stepped r (goes ids) (runs note) sh sh' p' e came v h =
      region-Stepped notes_activity sh sh' p' e tt v
  move-Stepped r (goes ids) (runs (arm k)) sh sh' p' e came v h =
      region-Stepped (arms_fallback k) (record sh { armed = k ∷ sh.armed }) sh' p' e tt
        (record { buffer = v.buffer; log = v.log })
  move-Stepped r (goes ids) (writing k [] t) sh sh' p' e came v h =
      same-Stepped (record sh { locked = false }) sh' (runs t) p' (ground arith) (ground arith)
        (record { shares = record { buffer = v.buffer; log = v.log }; place = h.1 })
  move-Stepped r (goes ids) (writing k (f ∷ frames) t) sh sh' p' e came v h =
      elim (Bool-cases (is_current k sh.session.sink)) [
        | inl cur ↦
            same-Stepped sh sh' (sending k f frames t) p' (ground arith) (ground arith)
              (record { shares = v; place = (h.0.0, h.0.1, h.1) })
        | inr other ↦
            same-Stepped (record sh { locked = false }) sh' (runs t) p' (ground arith)
              (ground arith)
              (record { shares = record { buffer = v.buffer; log = v.log }; place = h.1 })
      ]
  move-Stepped r (goes ids) (sending k f frames t) sh sh' p' e came v h =
      same-Stepped (logged k f true sh) sh' (writing k frames t) p' (ground arith) (ground arith)
        (record { shares = record { buffer = v.buffer; log = (h.0, v.log) }; place = (h.1, h.2) })
  move-Stepped r fails (sending k f frames t) sh sh' p' e came v h =
      same-Stepped (record (logged k f false sh) { locked = false }) sh' (runs t) p' (ground arith)
        (ground arith)
        (record { shares = record { buffer = v.buffer; log = (h.0, v.log) }; place = h.2 })
  move-Stepped _ _ _ sh sh' p' e came v h = cc
