-- ===== src/Session/Drain.antt =====
-- The acknowledgement of the events of a delivery in cmd/egress-broker/registry.go.
use substrate_ws_poc.Prelude.{
  ℕ, zero, suc, ◌+◌, ◌<◌, true, false, List, [], ◌∷◌, some, ◌≡◌, ◌≢◌, refl, arith, nat_eq, eq_refl,
  length, get_elem?, ap, ◌∙◌, sym, subst, All, ◌≤◌,
}
use substrate_ws_poc.Prelude.Bytes.{Bytes, bytes_eq}
use substrate_ws_poc.Prelude.Dict.{lookup, delete_value, lookup-delete_value_ne}
use substrate_ws_poc.Actor.{ActorRef}
use substrate_ws_poc.SocketMode.{Json}
use substrate_ws_poc.Session.State.{Config, Session, PendingEvent, Task, word, new_session}
use substrate_ws_poc.Session.Ops.{ack, deliver_buffered, remove_key, is_current}
use substrate_ws_poc.Session.Sections.{Section}
use substrate_ws_poc.Session.Frame.{register}
use substrate_ws_poc.Session.Cases.{skipped, stamped, deliver_buffered-Delivery}
use substrate_ws_poc.Session.Ids.{AreDistinct, lookup-register, ack_known, deliver-ack}
use substrate_ws_poc.Session.Runs.{run_sections, received_by}
use substrate_ws_poc.Session.Ascends.{Ascends}
use substrate_ws_poc.Session.Once.{run-IsOrdered, nil-Ascends}

-- The actor acknowledges the next `n` ids from the i-th on.
unfoldable pub ack_all : Config → (ℕ → Bytes) → ℕ → ℕ → Session → Session
ack_all c ids i zero s = s
ack_all c ids i (suc n) s = ack_all c ids (i + 1) n (ack c (ids i) s)

-- The ids from the i-th on stand for the events.
Names : (ℕ → Bytes) → ℕ → List PendingEvent → List (Bytes × ℕ) → Type 0
Names ids i [] m = Unit
Names ids i (e ∷ es) m = (lookup (ids i) m ≡ some e.key) × Names ids (i + 1) es m

Names-get_elem? :
    (ids : ℕ → Bytes) (i : ℕ) (es : List PendingEvent) (m : List (Bytes × ℕ))
    → ((j n : ℕ) (e : PendingEvent)
        → n ≡ i + j
        → get_elem? es j ≡ some e
        → lookup (ids n) m ≡ some e.key)
    → Names ids i es m
unfolding Names
Names-get_elem? ids i [] m h = tt
Names-get_elem? ids i (e ∷ es) m h = (
  h 0 i e (omega arith) refl,
  Names-get_elem? ids (i + 1) es m (λ j n f p at. h (suc j) n f (omega (arith, p)) at),
)

Names-delete_value :
    (ids : ℕ → Bytes) (i k low high : ℕ) (es : List PendingEvent) (m : List (Bytes × ℕ))
    → k < low
    → Ascends low es high
    → Names ids i es m
    → Names ids i es (delete_value k m)
unfolding Names Ascends
Names-delete_value ids i k low high [] m h up names = tt
Names-delete_value ids i k low high (e ∷ es) m h (here, rest) (name, names) = (
  lookup-delete_value_ne (ids i) k e.key m name (λ same. omega (arith, same, h, here)),
  Names-delete_value ids (i + 1) k (suc e.key) high es m (omega (arith, h, here)) rest names,
)

remove_key-first : (e : PendingEvent) (es : List PendingEvent) → remove_key e.key (e ∷ es) ≡ es
unfolding remove_key
remove_key-first e es = rw (eq_refl e.key) refl

Ascends-rest :
    (low high : ℕ) (e : PendingEvent) (es : List PendingEvent)
    → Ascends low (e ∷ es) high
    → Ascends (suc e.key) es high
unfolding Ascends
Ascends-rest low high e es h = h.1

-- The events but the n-th.
unfoldable pub without : ℕ → List PendingEvent → List PendingEvent
without n [] = []
without zero (e ∷ es) = es
without (suc n) (e ∷ es) = e ∷ without n es

above-first :
    (n low high : ℕ) (es : List PendingEvent) (e : PendingEvent)
    → Ascends low es high
    → get_elem? es n ≡ some e
    → low ≤ e.key
unfolding Ascends
above-first n low high [] e up at_n = cc
above-first zero low high (x ∷ es) e (here, rest) at_n = ground arith
above-first (suc n) low high (x ∷ es) e (here, rest) at_n =
    omega (arith, here, above-first n (suc x.key) high es e rest at_n)

-- The keys rise, so only the n-th event has its key.
remove_key-without :
    (n low high : ℕ) (es : List PendingEvent) (e : PendingEvent)
    → Ascends low es high
    → get_elem? es n ≡ some e
    → remove_key e.key es ≡ without n es
unfolding remove_key without Ascends
remove_key-without n low high [] e up at_n = cc
remove_key-without zero low high (x ∷ es) e up at_n = ground arith
remove_key-without (suc n) low high (x ∷ es) e (here, rest) at_n =
    let later = remove_key-without n (suc x.key) high es e rest at_n in
    ground (arith, later, above-first n (suc x.key) high es e rest at_n)

module _ (c : Config) (ids : ℕ → Bytes) (named : (i : ℕ) → ids i ≢ []) where
  ack_all-empties :
      (es : List PendingEvent) (i low high : ℕ) (s : Session)
      → s.buffer ≡ es
      → Names ids i es s.fresh_ids
      → Ascends low es high
      → (ack_all c ids i (length es) s).buffer ≡ []
  unfolding ack_all Names
  ack_all-empties [] i low high s here names up = here
  ack_all-empties (e ∷ es) i low high s here names up =
      let (gone, dropped) = ack_known c (ids i) s e.key (named i) names.0 in
      let rest = Ascends-rest low high e es up in
      let left : (ack c (ids i) s).buffer ≡ es =
        gone ∙ ap (remove_key e.key) here ∙ remove_key-first e es in
      ack_all-empties es (i + 1) (suc e.key) high (ack c (ids i) s) left
        (rw dropped (
          Names-delete_value ids (i + 1) e.key (suc e.key) high es s.fresh_ids (omega arith) rest
            names.1))
        rest

  -- After any regions of a new session that receive fewer than 2^64 events, if the buffer is
  -- delivered to the current sink, not settled before, under distinct and not empty ids, then
  -- acknowledging all of them in order leaves the buffer empty.
  pub deliver-ack_all :
      ⦃json : Json⦄ (ref : ActorRef) (secs : List Section) (k : ℕ) (s t : Session) (task : Task)
      → AreDistinct ids
      → run_sections c secs (new_session ref) ≡ some s
      → length (received_by secs) < word
      → is_current k s.sink ≡ true
      → s.settled ≡ false
      → deliver_buffered ids k s ≡ some (t, task)
      → (ack_all c ids 0 (length s.buffer) t).buffer ≡ []
  unfolding new_session
  deliver-ack_all ref secs k s t task distinct before small cur unsettled h =
      let o =
        run-IsOrdered c secs (new_session ref) s before (omega (arith, small))
          (nil-Ascends 0 0 (omega arith)) in
      elim (deliver_buffered-Delivery ids k s t task h) [
        | skipped why _ _ ↦ absurd (ground arith)
        | stamped frames _ _ _ now _ ↦
            let names =
              Names-get_elem? ids 0 s.buffer (register ids 0 s.buffer s.fresh_ids)
                (λ j n e p at. lookup-register ids 0 j n s.buffer s.fresh_ids e distinct p at) in
            ack_all-empties s.buffer 0 0 s.next_key t (ap (λ u. u.buffer) now)
              (subst (Names ids 0 s.buffer) (ap (λ u. u.fresh_ids) (sym now)) names) o.ordered
      ]

-- After any regions of a new session that receive fewer than 2^64 events, if the buffer is delivered
-- to the current sink, not settled before, under distinct ids, then acknowledging the n-th id, not
-- empty, leaves the buffered events but the n-th, in order, and no id for the key of the n-th.
pub deliver-ack_one :
    ⦃json : Json⦄ (c : Config) (ids : ℕ → Bytes) (ref : ActorRef) (secs : List Section) (k n : ℕ)
    (s t : Session) (task : Task) (e : PendingEvent)
    → AreDistinct ids
    → run_sections c secs (new_session ref) ≡ some s
    → length (received_by secs) < word
    → is_current k s.sink ≡ true
    → s.settled ≡ false
    → deliver_buffered ids k s ≡ some (t, task)
    → get_elem? s.buffer n ≡ some e
    → ids n ≢ []
    → ((ack c (ids n) t).buffer ≡ without n s.buffer)
      × All (λ b. b.1 ≢ e.key) (ack c (ids n) t).fresh_ids
unfolding new_session
deliver-ack_one c ids ref secs k n s t task e distinct before small cur unsettled h at_n named =
    let o =
      run-IsOrdered c secs (new_session ref) s before (omega (arith, small))
        (nil-Ascends 0 0 (omega arith)) in
    let (gone, dropped) = deliver-ack c ids distinct k n s t task e cur unsettled h at_n named in
    (gone ∙ remove_key-without n 0 s.next_key s.buffer e o.ordered at_n, dropped)
