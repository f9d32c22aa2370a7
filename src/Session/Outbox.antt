-- ===== src/Session/Outbox.antt =====
-- The specification of a session's buffer in cmd/egress-broker/registry.go: the history of the
-- events received and of the keys acknowledged, and what is then outstanding.
use substrate_ws_poc.Prelude.{
  ℕ, ◌+◌, ◌<◌, Bool, true, false, not, ◌||◌, List, [], ◌∷◌, ◌++◌, ◌≡◌, refl, arith, ◌==◌, nat_eq,
  length, keep, keep-append, All, sym,
}
use substrate_ws_poc.Prelude.Bytes.{Bytes}
use substrate_ws_poc.Session.State.{PendingEvent}
use substrate_ws_poc.Session.Ops.{remove_key}

pub record History : Type 0 where
  pub received : List Bytes  -- oldest first
  pub acked : List ℕ  -- the keys, latest first

-- The n-th event received has the key n.
unfoldable pub number : ℕ → List Bytes → List PendingEvent
number i [] = []
number i (r ∷ rs) = record { key = i; raw = r } ∷ number (i + 1) rs

unfoldable pub elem : ℕ → List ℕ → Bool
elem k [] = false
elem k (j ∷ js) = j == k || elem k js

abbrev pub is_outstanding : List ℕ → PendingEvent → Bool
is_outstanding acked e = not (elem e.key acked)

-- The events received and not acknowledged, in the order of their arrival.
unfoldable pub outstanding : History → List PendingEvent
outstanding h = keep (is_outstanding h.acked) (number 0 h.received)

unfoldable pub post : Bytes → History → History
post raw h = record h { received = h.received ++ raw ∷ [] }

unfoldable pub settle : ℕ → History → History
settle k h = record h { acked = k ∷ h.acked }

number-append :
    (i : ℕ) (rs : List Bytes) (r : Bytes)
    → number i (rs ++ r ∷ []) ≡ number i rs ++ record { key = i + length rs; raw = r } ∷ []
unfolding number
number-append i [] r = ground arith
number-append i (x ∷ rs) r = ground (arith, number-append (i + 1) rs r)

elem_above : (n : ℕ) (ks : List ℕ) → All (λ k. k < n) ks → elem n ks ≡ false
unfolding elem
elem_above n [] h = refl
elem_above n (k ∷ ks) h = ground (arith, elem_above n ks h.1)

pub outstanding-post :
    (raw : Bytes) (h : History)
    → All (λ k. k < length h.received) h.acked
    → outstanding (post raw h) ≡ outstanding h ++ record { key = length h.received; raw = raw } ∷ []
unfolding outstanding post keep
outstanding-post raw h below = rw (number-append 0 h.received raw) (
    rw (keep-append (is_outstanding h.acked) (number 0 h.received))
      (ground (arith, elem_above (length h.received) h.acked below)))

-- Keys are distinct, so the first match is the only one.
keep_settled :
    (k i : ℕ) (ks : List ℕ) (rs : List Bytes)
    → k < i
    → keep (is_outstanding (k ∷ ks)) (number i rs) ≡ keep (is_outstanding ks) (number i rs)
unfolding keep number elem
keep_settled k i ks [] h = refl
keep_settled k i ks (r ∷ rs) h = ground (arith, keep_settled k (i + 1) ks rs)

remove_key-keep :
    (k i : ℕ) (ks : List ℕ) (rs : List Bytes)
    → remove_key k (keep (is_outstanding ks) (number i rs))
      ≡ keep (is_outstanding (k ∷ ks)) (number i rs)
unfolding keep number elem remove_key
remove_key-keep k i ks [] = refl
remove_key-keep k i ks (r ∷ rs) =
    ground (arith, remove_key-keep k (i + 1) ks rs, keep_settled k (i + 1) ks rs)

pub outstanding-settle :
    (k : ℕ) (h : History) → outstanding (settle k h) ≡ remove_key k (outstanding h)
unfolding outstanding settle
outstanding-settle k h = sym (remove_key-keep k 0 h.acked h.received)

unfoldable pub has_key : ℕ → List PendingEvent → Bool
has_key k [] = false
has_key k (e ∷ es) = e.key == k || has_key k es

has_key-keep :
    (k i : ℕ) (acked : List ℕ) (rs : List Bytes)
    → has_key k (keep (is_outstanding acked) (number i rs)) ≡ true
    → k < i + length rs
unfolding has_key keep number
has_key-keep k i acked [] h = cc
has_key-keep k i acked (r ∷ rs) h = ground (arith, has_key-keep k (i + 1) acked rs)

-- Only a key that was given out is outstanding.
pub has_key-outstanding :
    (k : ℕ) (h : History) → has_key k (outstanding h) ≡ true → k < length h.received
unfolding outstanding
has_key-outstanding k h here = omega (arith, has_key-keep k 0 h.acked h.received here)
