-- ===== src/Session/Ids.antt =====
-- Delivering and acknowledging in cmd/egress-broker/registry.go: the fresh ids.
use substrate_ws_poc.Prelude.{
  ℕ, zero, suc, ◌+◌, ◌<◌, true, false, List, [], ◌∷◌, none, some, ◌≡◌, refl, arith, ◌==◌, nat_eq,
  All, get_elem?, ◌∙◌, sym, Bool-cases, Option-cases, inl, inr, ◌≢◌, eq_iff, ap,
}
use substrate_ws_poc.Prelude.Bytes.{Bytes, bytes_eq}
use substrate_ws_poc.Prelude.Dict.{
  lookup, IsMap, lookup-delete_value_eq, insert, delete_value, lookup-insert, delete_value-All_ne,
  lookup-delete_value_ne,
}
use substrate_ws_poc.SocketMode.{Json}
use substrate_ws_poc.Session.State.{Config, Session, PendingEvent, Task}
use substrate_ws_poc.Session.Ops.{ack, deliver_buffered, remove_key, is_current}
use substrate_ws_poc.Session.Frame.{register}
use substrate_ws_poc.Session.Cases.{skipped, stamped, deliver_buffered-Delivery}

-- The ids that one delivery draws are distinct.
abbrev pub AreDistinct : (ℕ → Bytes) → Type 0
AreDistinct ids = (i j : ℕ) → ids i ≡ ids j → i ≡ j

lookup-register_below :
    (ids : ℕ → Bytes) (i j : ℕ) (es : List PendingEvent) (m : List (Bytes × ℕ))
    → AreDistinct ids
    → j < i
    → lookup (ids j) (register ids i es m) ≡ lookup (ids j) m
unfolding register
lookup-register_below ids i j [] m d h = refl
lookup-register_below ids i j (e ∷ es) m d h =
    lookup-register_below ids (i + 1) j es _ d (omega arith)
    ∙ ground (arith, lookup-insert (ids i) (ids j) e.key m, eq_iff (ids i) (ids j), d i j)

-- The n-th id of a delivery stands for the n-th event of the buffer.
pub lookup-register :
    (ids : ℕ → Bytes) (i j n : ℕ) (es : List PendingEvent) (m : List (Bytes × ℕ)) (e : PendingEvent)
    → AreDistinct ids
    → n ≡ i + j
    → get_elem? es j ≡ some e
    → lookup (ids n) (register ids i es m) ≡ some e.key
unfolding register
lookup-register ids i j n [] m e d p h = cc
lookup-register ids i zero n (x ∷ es) m e d p h =
    lookup-register_below ids (i + 1) n es (insert (ids i) x.key m) d (omega arith)
    ∙ ground (arith, lookup-insert (ids i) (ids n) x.key m, eq_iff (ids i) (ids n), ap ids p)
lookup-register ids i (suc j) n (x ∷ es) m e d p h =
    lookup-register ids (i + 1) j n es (insert (ids i) x.key m) e d (omega arith) h

pub ack_known :
    (c : Config) (id : Bytes) (s : Session) (k : ℕ)
    → id ≢ []
    → lookup id s.fresh_ids ≡ some k
    → ((ack c id s).buffer ≡ remove_key k s.buffer)
      × ((ack c id s).fresh_ids ≡ delete_value k s.fresh_ids)
unfolding ack
ack_known c id s k n h = ground (arith, eq_iff id [])

ack_unknown :
    (c : Config) (id : Bytes) (s : Session) → lookup id s.fresh_ids ≡ none → ack c id s ≡ s
unfolding ack
ack_unknown c id s h = ground arith

module _ ⦃json : Json⦄ (c : Config) (ids : ℕ → Bytes) (distinct : AreDistinct ids) where
  -- With distinct new ids, after a delivery to the current sink of a session not settled,
  -- acknowledging the n-th id, not empty, removes the first event with the key of the n-th buffered
  -- event and no other, and leaves no id for that key.
  pub deliver-ack :
      (k n : ℕ) (s t : Session) (task : Task) (e : PendingEvent)
      → is_current k s.sink ≡ true
      → s.settled ≡ false
      → deliver_buffered ids k s ≡ some (t, task)
      → get_elem? s.buffer n ≡ some e
      → ids n ≢ []
      → ((ack c (ids n) t).buffer ≡ remove_key e.key s.buffer)
        × All (λ b. b.1 ≢ e.key) (ack c (ids n) t).fresh_ids
  deliver-ack k n s t task e cur uns h at_n named =
      elim (deliver_buffered-Delivery ids k s t task h) [
        | skipped why _ _ ↦ absurd (ground arith)
        | stamped frames _ _ _ now _ ↦
            let known : lookup (ids n) t.fresh_ids ≡ some e.key =
              ap (λ u. lookup (ids n) u.fresh_ids) now
              ∙ lookup-register ids 0 n n s.buffer s.fresh_ids e distinct (omega arith) at_n in
            let (gone, dropped) = ack_known c (ids n) t e.key named known in
            (
              gone ∙ ap (λ u. remove_key e.key u.buffer) now,
              rw dropped (delete_value-All_ne e.key t.fresh_ids),
            )
      ]

-- If the ids map is a map in which two ids name the same event, then once the event is acknowledged
-- by the first, not empty, acknowledging it by the other changes nothing.
ack_again :
    (c : Config) (id other : Bytes) (s : Session) (k : ℕ)
    → IsMap s.fresh_ids
    → id ≢ []
    → lookup id s.fresh_ids ≡ some k
    → lookup other s.fresh_ids ≡ some k
    → ack c other (ack c id s) ≡ ack c id s
ack_again c id other s k mapped n known same =
    let (_, dropped) = ack_known c id s k n known in
    ack_unknown c other (ack c id s)
      (rw dropped (lookup-delete_value_eq other k s.fresh_ids mapped same))

-- Acknowledging an id that does not name event j leaves every id of event j in the map.
ack_others :
    (c : Config) (id other : Bytes) (s : Session) (j : ℕ)
    → lookup other s.fresh_ids ≡ some j
    → lookup id s.fresh_ids ≢ some j
    → lookup other (ack c id s).fresh_ids ≡ some j
unfolding ack
ack_others c id other s j known differs = elim (Bool-cases (id == [])) [
  | inl empty ↦ rw (empty, ack) known
  | inr named ↦ elim (Option-cases (lookup id s.fresh_ids)) [
    | inl unknown ↦ rw (named, unknown, ack) known
    | inr (k, found) ↦ ground (
      arith,
      lookup-delete_value_ne other k j s.fresh_ids known (λ e. differs (found ∙ ap some (sym e))),
    )
  ]
]
