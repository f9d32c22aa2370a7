-- ===== src/Session/Live.antt =====
-- The fresh ids of cmd/egress-broker/registry.go and the events in the buffer.
use substrate_ws_poc.Prelude.{
  ℕ, ◌+◌, true, ◌||◌, List, [], ◌∷◌, ◌++◌, ◌≡◌, refl, arith, nat_eq, All, All-map, ◌≢◌,
}
use substrate_ws_poc.Prelude.Bytes.{Bytes, bytes_eq}
use substrate_ws_poc.Prelude.Dict.{IsMap, insert-IsMap, insert-All}
use substrate_ws_poc.Session.State.{PendingEvent}
use substrate_ws_poc.Session.Ops.{remove_key}
use substrate_ws_poc.Session.Frame.{register}
use substrate_ws_poc.Session.Outbox.{has_key}

-- A fresh id stands for an event in the buffer.
abbrev pub IsLive : List PendingEvent → List (Bytes × ℕ) → Type 0
IsLive buffer ids = All (λ b. has_key b.1 buffer ≡ true) ids

pub remove_key-ne :
    (k j : ℕ) (es : List PendingEvent)
    → j ≢ k
    → has_key j es ≡ true
    → has_key j (remove_key k es) ≡ true
unfolding has_key remove_key
remove_key-ne k j [] n h = h
remove_key-ne k j (e ∷ es) n h = ground (arith, remove_key-ne k j es n)

has_key-append :
    (k : ℕ) (es fs : List PendingEvent) → has_key k (es ++ fs) ≡ (has_key k es || has_key k fs)
unfolding has_key
has_key-append k [] fs = refl
has_key-append k (e ∷ es) fs = ground (arith, has_key-append k es fs)

pub has_own_keys : (es : List PendingEvent) → All (λ e. has_key e.key es ≡ true) es
unfolding has_key
has_own_keys [] = tt
has_own_keys (e ∷ es) = (ground arith, All-map _ _ (λ f h. ground (arith, h)) es (has_own_keys es))

pub IsLive-register :
    (buffer : List PendingEvent) (ids : ℕ → Bytes) (i : ℕ) (es : List PendingEvent)
    (m : List (Bytes × ℕ))
    → All (λ e. has_key e.key buffer ≡ true) es
    → IsLive buffer m
    → IsLive buffer (register ids i es m)
unfolding register
IsLive-register buffer ids i [] m h l = l
IsLive-register buffer ids i (e ∷ es) m h l =
    IsLive-register buffer ids (i + 1) es _ h.1
      (insert-All (λ b. has_key b.1 buffer ≡ true) (ids i) e.key m h.0 l)

pub IsLive-append :
    (es fs : List PendingEvent) (m : List (Bytes × ℕ)) → IsLive es m → IsLive (es ++ fs) m
IsLive-append es fs m = All-map _ _ (λ b h. ground (arith, has_key-append b.1 es fs, h)) m

pub has_key-concat :
    (e : PendingEvent) (es : List PendingEvent) → has_key e.key (es ++ e ∷ []) ≡ true
unfolding has_key
has_key-concat e es = ground (arith, has_key-append e.key es (e ∷ []))

pub IsMap-register :
    (ids : ℕ → Bytes) (i : ℕ) (es : List PendingEvent) (m : List (Bytes × ℕ))
    → IsMap m
    → IsMap (register ids i es m)
unfolding register
IsMap-register ids i [] m h = h
IsMap-register ids i (e ∷ es) m h = IsMap-register ids (i + 1) es _ (insert-IsMap (ids i) e.key m h)
