-- ===== src/Session/Refines.antt =====
-- The locked regions of cmd/egress-broker/registry.go, the buffer, and what its history leaves
-- outstanding.
use substrate_ws_poc.Prelude.{
  ℕ, ◌+◌, ◌≤◌, ◌<◌, ◌%◌, true, [], ◌∷◌, ◌++◌, Option, none, some, ◌≡◌, refl, arith, ◌==◌, nat_eq,
  length, length-append, All, All-map, if◌then◌else◌, ◌∙◌, sym, Bool-cases, Option-cases, inl, inr,
}
use substrate_ws_poc.Prelude.Bytes.{Bytes, bytes_eq}
use substrate_ws_poc.Prelude.Dict.{
  lookup, IsMap, insert-IsMap, delete_value-IsMap, delete_value, lookup-All, insert-All,
  delete_value-All,
}
use substrate_ws_poc.SocketMode.{Json}
use substrate_ws_poc.Session.State.{Config, Session, Task, word, increment}
use substrate_ws_poc.Session.Ops.{ack, remove_key}
use substrate_ws_poc.Session.Sections.{Section, acks, delivers, receives, exec}
use substrate_ws_poc.Session.Live.{
  IsLive, remove_key-ne, has_own_keys, IsLive-register, IsMap-register, IsLive-append,
  has_key-concat,
}
use substrate_ws_poc.Session.Outbox.{
  History, post, settle, outstanding, outstanding-settle, outstanding-post, has_key,
  has_key-outstanding,
}
use substrate_ws_poc.Session.Cases.{
  SameEvents, quiet-SameEvents, Delivery, skipped, stamped, deliver_buffered-Delivery, Arrival,
  delivered, held, left, on_event-Arrival,
}

-- The event that an id acknowledges.
settle_key : Option ℕ → History → History
settle_key none h = h
settle_key (some k) h = settle k h

-- What a region adds to the history.
unfoldable pub advance : Section → Session → History → History
unfolding settle_key
advance (receives raw fresh) s h = post raw h
advance (acks id) s h = if id == [] then h else settle_key (lookup id s.fresh_ids) h
advance _ s h = h

-- The keys wrap after 2^64 events.
pub record Refines (h : History) (s : Session) : Type 0 where
  pub counted : s.next_key ≡ length h.received % word
  pub below : length h.received ≤ word → All (λ k. k < length h.received) h.acked
  pub buffered : length h.received ≤ word → s.buffer ≡ outstanding h
  pub live : IsLive s.buffer s.fresh_ids
  pub mapped : IsMap s.fresh_ids

quiet-Refines : (h : History) (s t : Session) → SameEvents s t → Refines h s → Refines h t
quiet-Refines h s t same r = record {
  counted = same.next_key ∙ r.counted;
  below = r.below;
  buffered = λ small. same.buffer ∙ r.buffered small;
  live = rw (same.buffer, same.fresh_ids) r.live;
  mapped = rw same.fresh_ids r.mapped;
}

-- An acknowledged event leaves the buffer and the outstanding events.
settle-Refines :
    (h : History) (s t : Session) (k : ℕ)
    → has_key k s.buffer ≡ true
    → t.next_key ≡ s.next_key
    → t.buffer ≡ remove_key k s.buffer
    → t.fresh_ids ≡ delete_value k s.fresh_ids
    → Refines h s
    → Refines (settle k h) t
unfolding settle
settle-Refines h s t k here n b f r = record {
  counted = n ∙ r.counted;
  below = λ small. (has_key-outstanding k h (rw (r.buffered small) at here), r.below small);
  buffered = λ small. rw (b, r.buffered small) (sym (outstanding-settle k h));
  live =
      rw (b, f)
        (delete_value-All _ _ k s.fresh_ids
          (λ x other live. remove_key-ne k x.1 s.buffer other live) r.live);
  mapped = rw f (delete_value-IsMap k s.fresh_ids r.mapped);
}

post-Refines :
    (h : History) (s t : Session) (raw : Bytes)
    → t.next_key ≡ increment s.next_key
    → t.buffer ≡ s.buffer ++ record { key = s.next_key; raw = raw } ∷ []
    → IsLive t.buffer t.fresh_ids
    → IsMap t.fresh_ids
    → Refines h s
    → Refines (post raw h) t
unfolding post
post-Refines h s t raw n b live mapped r = record {
  counted = ground (arith, longer);
  below = λ small.
      All-map _ _ (λ k low. omega (arith, longer)) h.acked (r.below (omega (arith, longer)));
  buffered = λ small.
      let before = r.buffered (omega (arith, longer)) in
      let now : s.next_key ≡ length h.received = omega (arith, longer, r.counted) in
      rw (b, before, now) (sym (outstanding-post raw h (r.below (omega (arith, longer)))));
  live = live;
  mapped = mapped;
}
  where
    longer : length (h.received ++ raw ∷ []) ≡ length h.received + 1
    longer = length-append h.received (raw ∷ [])

module _ ⦃json : Json⦄ (c : Config) where
  acks-Refines :
      (h : History) (s : Session) (id : Bytes)
      → Refines h s
      → Refines (advance (acks id) s h) (ack c id s)
  unfolding advance ack
  acks-Refines h s id r = elim (Bool-cases (id == [])) [
    | inl empty ↦ rw (empty, ack, advance) r
    | inr some_id ↦ elim (Option-cases (lookup id s.fresh_ids)) [
      | inl unknown ↦ rw (some_id, unknown, ack, advance) r
      | inr (k, known) ↦
          rw (some_id, known, ack, advance)
            (settle-Refines h s _ k (lookup-All _ id k s.fresh_ids r.live known) (ground arith)
              (ground arith) (ground arith) r)
    ]
  ]

  delivers-Refines :
      (h : History) (ids : ℕ → Bytes) (k : ℕ) (s t : Session) (task : Task)
      → Delivery ids k s t task
      → Refines h s
      → Refines h t
  delivers-Refines h ids k s t task (skipped why same _) r = rw same r
  delivers-Refines h ids k s t task (stamped frames _ _ _ now _) r = rw now (record {
    counted = r.counted;
    below = r.below;
    buffered = r.buffered;
    live = IsLive-register s.buffer ids 0 s.buffer s.fresh_ids (has_own_keys s.buffer) r.live;
    mapped = IsMap-register ids 0 s.buffer s.fresh_ids r.mapped;
  })

  receives-Refines :
      (h : History) (raw fresh : Bytes) (s t : Session) (task : Task)
      → Arrival raw fresh s t task
      → Refines h s
      → Refines (post raw h) t
  receives-Refines h raw fresh s t task (delivered k frame _ _ _ now _) r = rw now (
      post-Refines h s _ raw refl refl
        (insert-All _ fresh s.next_key s.fresh_ids (has_key-concat _ s.buffer)
          (IsLive-append s.buffer _ s.fresh_ids r.live))
        (insert-IsMap fresh s.next_key s.fresh_ids r.mapped) r)
  receives-Refines h raw fresh s t task (held k _ _ now _) r =
      rw now
        (post-Refines h s _ raw refl refl (IsLive-append s.buffer _ s.fresh_ids r.live) r.mapped r)
  receives-Refines h raw fresh s t task (left _ now _) r =
      rw now
        (post-Refines h s _ raw refl refl (IsLive-append s.buffer _ s.fresh_ids r.live) r.mapped r)

  -- Every locked region, on every branch, moves the buffer as its history says.
  pub exec-Refines :
      (sec : Section) (h : History) (s t : Session) (task : Task)
      → exec c sec s ≡ some (t, task)
      → Refines h s
      → Refines (advance sec s h) t
  unfolding exec advance
  exec-Refines (acks id) h s t task e r =
      let now : ack c id s ≡ t = ground arith in rw (← now) (acks-Refines h s id r)
  exec-Refines (delivers ids k) h s t task e r =
      delivers-Refines h ids k s t task (deliver_buffered-Delivery ids k s t task e) r
  exec-Refines (receives raw fresh) h s t task e r =
      receives-Refines h raw fresh s t task (on_event-Arrival raw fresh s t task e) r
  exec-Refines sec h s t task e r = quiet-Refines h s t (quiet-SameEvents c sec s t task refl e) r
