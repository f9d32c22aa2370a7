-- ===== src/Session/Kept.antt =====
-- What the buffer of cmd/egress-broker/registry.go still has of the events received.
use substrate_ws_poc.Prelude.{
  ℕ, suc, ◌+◌, ◌≤◌, List, [], ◌∷◌, some, ◌≡◌, refl, arith, nat_eq, ap, length, keep, All, get_elem?,
  subst, Bool-cases, inl, inr,
}
use substrate_ws_poc.Prelude.Bytes.{Bytes}
use substrate_ws_poc.Session.State.{PendingEvent}
use substrate_ws_poc.Session.Ops.{remove_key}
use substrate_ws_poc.Session.Outbox.{
  History, number, elem, is_outstanding, outstanding, outstanding-settle, settle,
}

remove_key-length : (k : ℕ) (es : List PendingEvent) → length es ≤ length (remove_key k es) + 1
unfolding remove_key
remove_key-length k [] = omega arith
remove_key-length k (e ∷ es) = ground (arith, remove_key-length k es)

keep-number :
    (i : ℕ) (rs : List Bytes) → length (keep (is_outstanding []) (number i rs)) ≡ length rs
unfolding keep number elem
keep-number i [] = refl
keep-number i (r ∷ rs) = ap suc (keep-number (i + 1) rs)

-- A key that is acknowledged takes at most one event away.
pub received-le :
    (rs : List Bytes) (ks : List ℕ)
    → length rs ≤ length (outstanding (record { received = rs; acked = ks })) + length ks
unfolding outstanding settle
received-le rs [] = rw (keep-number 0 rs) (omega arith)
received-le rs (k ∷ ks) =
    let h : History = record { received = rs; acked = ks } in
    let same : outstanding (record { received = rs; acked = k ∷ ks })
        ≡ remove_key k (outstanding h) =
      outstanding-settle k h in
    rw same (omega (arith, received-le rs ks, remove_key-length k (outstanding h)))

keep-All :
    (P : PendingEvent → Type 0) (ks : List ℕ) (i : ℕ) (rs : List Bytes)
    → ((j : ℕ) (raw : Bytes) → get_elem? rs j ≡ some raw → P (record { key = i + j; raw = raw }))
    → All P (keep (is_outstanding ks) (number i rs))
unfolding keep number
keep-All P ks i [] h = tt
keep-All P ks i (r ∷ rs) h =
    let here : P (record { key = i; raw = r }) =
      subst (λ k. P (record { key = k; raw = r })) (omega arith) (h 0 r refl) in
    let rest = keep-All P ks (i + 1) rs (λ j raw at.
      subst (λ k. P (record { key = k; raw = raw })) (omega arith) (h (suc j) raw at)) in
    elim (Bool-cases (elem i ks)) [ inl gone ↦ rw gone rest | inr left ↦ rw left (here, rest) ]

-- The n-th event received is buffered under the key n.
abbrev pub IsReceived : List Bytes → PendingEvent → Type 0
IsReceived rs e = get_elem? rs e.key ≡ some e.raw

pub outstanding-IsReceived : (h : History) → All (IsReceived h.received) (outstanding h)
unfolding outstanding
outstanding-IsReceived h =
    keep-All (IsReceived h.received) h.acked 0 h.received
      (λ j raw at. subst (λ k. get_elem? h.received k ≡ some raw) (omega arith) at)
