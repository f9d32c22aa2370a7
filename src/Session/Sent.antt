-- ===== src/Session/Sent.antt =====
-- What each region of cmd/egress-broker/registry.go sends on a connection, between two attaches.
use substrate_ws_poc.Prelude.{
  ℕ, ◌+◌, ◌≤◌, ◌<◌, true, false, [], ◌∷◌, ◌++◌, some, ◌≡◌, refl, arith, nat_eq, inl, inr, ap, subst,
}
use substrate_ws_poc.Prelude.Bytes.{Bytes, bytes_eq}
use substrate_ws_poc.SocketMode.{Json}
use substrate_ws_poc.Session.State.{Config, Session, Task, word, increment}
use substrate_ws_poc.Session.Ops.{
  note_activity, on_idle, suspend_failed, begin_forward, end_forward, ensure_started, resume_failed,
  close, detach, ack, arm_fallback,
}
use substrate_ws_poc.Session.Sections.{Section, attaches, delivers, receives, acks, exec}
use substrate_ws_poc.Session.Cases.{
  quiet-SameEvents, is_quiet, skipped, stamped, deliver_buffered-Delivery, delivered, held, left,
  on_event-Arrival,
}
use substrate_ws_poc.Session.Ascends.{Ascends, lowest, sent}
use substrate_ws_poc.Session.Sends.{
  taken, is_attach, Sends, silent, concat-Ascends, lowest-settled, lowest-away, lowest-open,
  current-some, bursts, sent-skipped, sent-stamped, sent-delivered, sent-held, increment_small,
  single-Ascends, ack-kept, ack-Ascends,
}

module _ ⦃json : Json⦄ (c : Config) where
  quiet-lowest :
      (sec : Section) (s t : Session) (task : Task)
      → is_quiet sec ≡ true
      → is_attach sec ≡ false
      → exec c sec s ≡ some (t, task)
      → lowest s ≤ lowest t
  unfolding exec note_activity on_idle suspend_failed begin_forward end_forward ensure_started
      resume_failed close detach arm_fallback
  quiet-lowest (receives raw fresh) s t task q a e = cc
  quiet-lowest (acks id) s t task q a e = cc
  quiet-lowest (delivers ids k) s t task q a e = cc
  quiet-lowest (attaches k) s t task q a e = cc
  quiet-lowest _ s t task q a e = ground arith

  quiet-Sends :
      (sec : Section) (s t : Session) (task : Task)
      → is_quiet sec ≡ true
      → is_attach sec ≡ false
      → exec c sec s ≡ some (t, task)
      → Ascends 0 s.buffer s.next_key
      → Sends s t [] 0
  quiet-Sends sec s t task q a e h =
      let same = quiet-SameEvents c sec s t task q e in
      silent s t 0 (omega (arith, same.next_key)) (rw (same.buffer, same.next_key) h)
        (quiet-lowest sec s t task q a e)

  delivers-Sends :
      (ids : ℕ → Bytes) (k : ℕ) (s t : Session) (task : Task)
      → exec c (delivers ids k) s ≡ some (t, task)
      → Ascends 0 s.buffer s.next_key
      → Sends s t (sent (delivers ids k) s) 0
  unfolding exec
  delivers-Sends ids k s t task e h = elim (deliver_buffered-Delivery ids k s t task e) [
    | skipped why same now ↦
        rw (same, sent-skipped ids k s why) (silent s s 0 (omega arith) h (omega arith))
    | stamped frames cur unsettled out same now ↦
        let (j, here) = current-some k s.sink cur in
        let low = lowest-open s j here unsettled in
        let kept : Ascends (lowest s) s.buffer s.next_key = rw low h in
        rw (sent-stamped ids k s cur unsettled) (
          bursts s t s.buffer 0 (ground arith) (rw same h) (rw same kept)
            (lowest-settled t (ground arith)))
  ]

  receives-Sends :
      (raw fresh : Bytes) (s t : Session) (task : Task)
      → exec c (receives raw fresh) s ≡ some (t, task)
      → s.next_key + 1 < word
      → Ascends 0 s.buffer s.next_key
      → Sends s t (sent (receives raw fresh) s) 1
  unfolding exec
  receives-Sends raw fresh s t task e small h =
      let suc_key = increment_small s.next_key small in
      let more : Ascends 0 (s.buffer ++ record { key = s.next_key; raw = raw } ∷ [])
          (increment s.next_key) =
        subst (Ascends 0 (s.buffer ++ record { key = s.next_key; raw = raw } ∷ []))
          (omega (arith, suc_key)) (concat-Ascends s raw h) in
      elim (on_event-Arrival raw fresh s t task e) [
        | delivered k frame here settled out same now ↦
            rw (sent-delivered raw fresh k s here settled) (
              bursts s t _ 1 (ground (arith, suc_key)) (rw same more)
                (single-Ascends (lowest s) t.next_key _ (omega (arith, lowest-settled s settled))
                  (omega (arith, suc_key, ap (λ u. u.next_key) same)))
                (lowest-settled t (ground arith)))
        | held k here unsettled same now ↦ rw (sent-held raw fresh s (inr unsettled)) (
            silent s t 1 (ground (arith, suc_key)) (rw same more)
              (omega (arith, lowest-open s k here unsettled)))
        | left away same now ↦ rw (sent-held raw fresh s (inl away)) (
            silent s t 1 (ground (arith, suc_key)) (rw same more) (
              omega (
                arith,
                lowest-away s away,
                lowest-away t (ground arith),
                suc_key,
                ap (λ u. u.next_key) same,
              )))
      ]

  acks-Sends :
      (id : Bytes) (s t : Session) (task : Task)
      → exec c (acks id) s ≡ some (t, task)
      → Ascends 0 s.buffer s.next_key
      → Sends s t [] 0
  unfolding exec
  acks-Sends id s t task e h =
      let same : t ≡ ack c id s = ground arith in
      rw same (
        silent s (ack c id s) 0 (omega (arith, (ack-kept c id s).0)) (ack-Ascends c id s h)
          (omega (arith, (ack-kept c id s).1)))

  pub exec-Sends :
      (sec : Section) (s t : Session) (task : Task)
      → exec c sec s ≡ some (t, task)
      → is_attach sec ≡ false
      → s.next_key + taken sec < word
      → Ascends 0 s.buffer s.next_key
      → Sends s t (sent sec s) (taken sec)
  unfolding sent
  exec-Sends (delivers ids k) s t task e a small h = delivers-Sends ids k s t task e h
  exec-Sends (receives raw fresh) s t task e a small h = receives-Sends raw fresh s t task e small h
  exec-Sends (acks id) s t task e a small h = acks-Sends id s t task e h
  exec-Sends sec s t task e a small h = quiet-Sends sec s t task refl a e h
