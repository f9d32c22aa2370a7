-- ===== src/Session/Sends.antt =====
-- What it takes for a region of cmd/egress-broker/registry.go to send events in order.
use substrate_ws_poc.Prelude.{
  ℕ, suc, ◌+◌, ◌≤◌, ◌<◌, Bool, true, false, List, [], ◌∷◌, ◌++◌, Option, none, some, ◌≡◌, refl,
  arith, nat_eq, inl, inr, ◌⊎◌,
}
use substrate_ws_poc.Prelude.Bytes.{Bytes, bytes_eq}
use substrate_ws_poc.Session.State.{Config, Session, PendingEvent, word, increment}
use substrate_ws_poc.Session.Ops.{ack, is_current}
use substrate_ws_poc.Session.Sections.{Section, attaches, delivers, receives}
use substrate_ws_poc.Session.Cases.{ack_buffer}
use substrate_ws_poc.Session.Ascends.{
  Ascends, Ascends-lower, Ascends-append, Ascends-remove_key, lowest, sent,
}

-- The number of events that a region takes in.
abbrev pub taken : Section → ℕ
taken (receives raw fresh) = 1
taken _ = 0

abbrev pub is_attach : Section → Bool
is_attach (attaches k) = true
is_attach _ = false

-- A region that sends the events `es` and takes in `n`.
pub record Sends (s t : Session) (es : List PendingEvent) (n : ℕ) : Type 0 where
  pub next : t.next_key ≡ s.next_key + n
  pub ordered : Ascends 0 t.buffer t.next_key
  pub goes_on :
      (later : List PendingEvent) (high : ℕ)
      → Ascends (lowest t) later high
      → Ascends (lowest s) (es ++ later) high

pub silent :
    (s t : Session) (n : ℕ)
    → t.next_key ≡ s.next_key + n
    → Ascends 0 t.buffer t.next_key
    → lowest s ≤ lowest t
    → Sends s t [] n
silent s t n next ordered low = record {
  next = next;
  ordered = ordered;
  goes_on = λ later high h. Ascends-lower (lowest s) (lowest t) high later low h;
}

pub concat-Ascends :
    (s : Session) (raw : Bytes)
    → Ascends 0 s.buffer s.next_key
    → Ascends 0 (s.buffer ++ record { key = s.next_key; raw = raw } ∷ []) (suc s.next_key)
unfolding Ascends
concat-Ascends s raw h =
    Ascends-append 0 s.next_key (suc s.next_key) s.buffer _ h (omega arith, omega arith)

pub lowest-settled : (s : Session) → s.settled ≡ true → lowest s ≡ s.next_key
lowest-settled s h = ground arith

pub lowest-away : (s : Session) → s.sink ≡ none → lowest s ≡ s.next_key
lowest-away s h = ground arith

pub lowest-open : (s : Session) (k : ℕ) → s.sink ≡ some k → s.settled ≡ false → lowest s ≡ 0
lowest-open s k h u = ground arith

pub current-some : (k : ℕ) (sink : Option ℕ) → is_current k sink ≡ true → (j : ℕ) × (sink ≡ some j)
current-some k none h = cc
current-some k (some j) h = (j, refl)

-- A region that sends the whole buffer, or the new event.
pub bursts :
    (s t : Session) (es : List PendingEvent) (n : ℕ)
    → t.next_key ≡ s.next_key + n
    → Ascends 0 t.buffer t.next_key
    → Ascends (lowest s) es t.next_key
    → lowest t ≡ t.next_key
    → Sends s t es n
bursts s t es n next ordered given low = record {
  next = next;
  ordered = ordered;
  goes_on = λ later high h.
      Ascends-append (lowest s) t.next_key high es later given
        (Ascends-lower t.next_key (lowest t) high later (omega (arith, low)) h);
}

pub sent-skipped :
    (ids : ℕ → Bytes) (k : ℕ) (s : Session)
    → (is_current k s.sink ≡ false) ⊎ (s.settled ≡ true)
    → sent (delivers ids k) s ≡ []
unfolding sent
sent-skipped ids k s why = ground (arith, why)

pub sent-stamped :
    (ids : ℕ → Bytes) (k : ℕ) (s : Session)
    → is_current k s.sink ≡ true
    → s.settled ≡ false
    → sent (delivers ids k) s ≡ s.buffer
unfolding sent
sent-stamped ids k s cur unsettled = ground arith

pub sent-delivered :
    (raw fresh : Bytes) (k : ℕ) (s : Session)
    → s.sink ≡ some k
    → s.settled ≡ true
    → sent (receives raw fresh) s ≡ record { key = s.next_key; raw = raw } ∷ []
unfolding sent
sent-delivered raw fresh k s here settled = ground arith

pub sent-held :
    (raw fresh : Bytes) (s : Session)
    → (s.sink ≡ none) ⊎ (s.settled ≡ false)
    → sent (receives raw fresh) s ≡ []
unfolding sent
sent-held raw fresh s why = ground (arith, why)

pub increment_small : (n : ℕ) → n + 1 < word → increment n ≡ n + 1
increment_small n h = omega (arith, h)

pub single-Ascends :
    (low high : ℕ) (e : PendingEvent) → low ≤ e.key → suc e.key ≤ high → Ascends low (e ∷ []) high
unfolding Ascends
single-Ascends low high e h r = (h, r)

pub ack-kept :
    (c : Config) (id : Bytes) (s : Session)
    → ((ack c id s).next_key ≡ s.next_key) × (lowest (ack c id s) ≡ lowest s)
unfolding ack
ack-kept c id s = ground arith

pub ack-Ascends :
    (c : Config) (id : Bytes) (s : Session)
    → Ascends 0 s.buffer s.next_key
    → Ascends 0 (ack c id s).buffer (ack c id s).next_key
ack-Ascends c id s h = elim (ack_buffer c id s) [
  | inl same ↦ rw (same, (ack-kept c id s).0) h
  | inr (k, removed) ↦
      rw (removed, (ack-kept c id s).0) (Ascends-remove_key k 0 s.next_key s.buffer h)
]
