-- ===== src/Session/Ascends.antt =====
-- Events of cmd/egress-broker/registry.go in the order of their keys, and those that a region sends.
use substrate_ws_poc.Prelude.{
  ℕ, suc, ◌≤◌, not, ◌||◌, List, [], ◌∷◌, ◌++◌, arith, nat_eq, ◌==◌, if◌then◌else◌, Bool-cases, inl,
  inr, is_none,
}
use substrate_ws_poc.Prelude.Bytes.{bytes_eq}
use substrate_ws_poc.Session.State.{Session, PendingEvent}
use substrate_ws_poc.Session.Ops.{remove_key, is_current}
use substrate_ws_poc.Session.Sections.{Section, delivers, receives}

-- The keys of the events rise, from `low` on and below `high`.
unfoldable pub Ascends : ℕ → List PendingEvent → ℕ → Type 0
Ascends low [] high = low ≤ high
Ascends low (e ∷ es) high = (low ≤ e.key) × Ascends (suc e.key) es high

pub Ascends-lower :
    (a low high : ℕ) (es : List PendingEvent) → a ≤ low → Ascends low es high → Ascends a es high
unfolding Ascends
Ascends-lower a low high [] h r = omega (arith, h, r)
Ascends-lower a low high (e ∷ es) h (here, rest) = (omega (arith, h, here), rest)

pub Ascends-append :
    (low mid high : ℕ) (xs ys : List PendingEvent)
    → Ascends low xs mid
    → Ascends mid ys high
    → Ascends low (xs ++ ys) high
unfolding Ascends
Ascends-append low mid high [] ys h r = Ascends-lower low mid high ys h r
Ascends-append low mid high (e ∷ es) ys (here, rest) r =
    (here, Ascends-append (suc e.key) mid high es ys rest r)

pub Ascends-remove_key :
    (k low high : ℕ) (es : List PendingEvent)
    → Ascends low es high
    → Ascends low (remove_key k es) high
unfolding Ascends remove_key
Ascends-remove_key k low high [] h = h
Ascends-remove_key k low high (e ∷ es) (here, rest) = elim (Bool-cases (e.key == k)) [
  | inl same ↦ rw same (Ascends-lower low (suc e.key) high es (omega (arith, here)) rest)
  | inr other ↦ rw other (here, Ascends-remove_key k (suc e.key) high es rest)
]

-- The least key that the current connection, if any, can still get.
abbrev pub lowest : Session → ℕ
lowest s = if is_none s.sink || s.settled then s.next_key else 0

-- The events whose frames a region hands to `writeToSink`.
unfoldable pub sent : Section → Session → List PendingEvent
sent (delivers ids k) s = if not (is_current k s.sink) || s.settled then [] else s.buffer
sent (receives raw fresh) s =
    if is_none s.sink || not s.settled then [] else record { key = s.next_key; raw = raw } ∷ []
sent _ s = []
