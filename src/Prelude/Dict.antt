-- ===== src/Prelude/Dict.antt =====
-- A Go map as an association list: reading, assignment, `delete`, and the loop that deletes every
-- entry with a given value.
use substrate_ws_poc.Prelude.Tests.{if◌then◌else◌, Bool-cases}
use substrate_ws_poc.Prelude.Equality.{Eq, ◌==◌, eq_iff, eq_refl}
use substrate_ws_poc.Prelude.Lists.{All}
use mathlib.Core.Path.{◌≡◌, refl, subst}
use mathlib.Core.Logic.{◌≢◌, inl, inr}
use mathlib.Core.List.{List, [], ◌∷◌}
use mathlib.Core.Option.{Option, none, some}
use native.Mathlib.Omega.{arith}

module _ {ℓ κ} {K : Type ℓ} {V : Type κ} ⦃e : Eq K⦄ where
  unfoldable pub lookup : K → List (K × V) → Option V
  lookup k [] = none
  lookup k ((j, v) ∷ m) = if j == k then some v else lookup k m

  unfoldable pub delete : K → List (K × V) → List (K × V)
  delete k [] = []
  delete k ((j, v) ∷ m) = let rest = delete k m in if j == k then rest else (j, v) ∷ rest

  unfoldable pub insert : K → V → List (K × V) → List (K × V)
  insert key val [] = (key, val) ∷ []
  insert key val ((k, v) ∷ rest) =
      if k == key then (key, val) ∷ rest else (k, v) ∷ insert key val rest

  pub lookup-insert :
      (key k : K) (val : V) (m : List (K × V))
      → lookup k (insert key val m) ≡ (if key == k then some val else lookup k m)
  unfolding lookup insert
  lookup-insert key k val [] = refl
  lookup-insert key k val ((j, v) ∷ rest) =
      let later = lookup-insert key k val rest in
      ground (arith, later, eq_iff j key, eq_iff key k, eq_iff j k)

  pub lookup-insert_self : (k : K) (v : V) (m : List (K × V)) → lookup k (insert k v m) ≡ some v
  lookup-insert_self k v m = rw (lookup-insert, eq_refl)

  pub lookup-delete :
      (k j : K) (m : List (K × V)) → lookup j (delete k m) ≡ (if k == j then none else lookup j m)
  unfolding lookup delete
  lookup-delete k j [] = ground arith
  lookup-delete k j ((i, w) ∷ m) =
      ground (arith, eq_iff k j, eq_iff i k, eq_iff i j, lookup-delete k j m)

  pub insert-All {μ} :
      (P : K × V → Type μ) (k : K) (v : V) (m : List (K × V))
      → P (k, v)
      → All P m
      → All P (insert k v m)
  unfolding insert
  insert-All P k v [] p h = (p, tt)
  insert-All P k v ((j, w) ∷ m) p h = ground (arith, insert-All P k v m p h.1)

  pub lookup-All {μ} :
      (P : K × V → Type μ) (k : K) (v : V) (m : List (K × V))
      → All P m
      → lookup k m ≡ some v
      → P (k, v)
  unfolding lookup
  lookup-All P k v [] h l = cc
  lookup-All P k v ((j, w) ∷ m) h l = elim (Bool-cases (j == k)) [
    | inl hit ↦
        let at_k : P (k, w) = rw (← (eq_iff j k).0 hit) h.0 in
        let same : w ≡ v = ground arith in rw (← same) at_k
    | inr miss ↦ lookup-All P k v m h.1 (ground arith)
  ]

  pub delete-All {μ} :
      (P : K × V → Type μ) (k : K) (m : List (K × V)) → All P m → All P (delete k m)
  unfolding delete
  delete-All P k [] h = tt
  delete-All P k ((j, v) ∷ m) h = ground (arith, delete-All P k m h.1)

  pub lookup-delete_self : (k : K) (m : List (K × V)) → lookup k (delete k m) ≡ none
  lookup-delete_self k m = rw (lookup-delete, eq_refl)

-- A key has one entry.
abbrev pub IsMap {ℓ κ} : {K : Type ℓ} {V : Type κ} → List (K × V) → Type ℓ
IsMap [] = Unit
IsMap ((k, v) ∷ m) = All (λ b. b.0 ≢ k) m × IsMap m

module _ {ℓ κ} {K : Type ℓ} {V : Type κ} ⦃e : Eq K⦄ where
  pub insert-IsMap : (k : K) (v : V) (m : List (K × V)) → IsMap m → IsMap (insert k v m)
  unfolding insert
  insert-IsMap k v [] h = (tt, tt)
  insert-IsMap k v ((j, w) ∷ m) h = elim (Bool-cases (j == k)) [
    | inl hit ↦ rw hit (subst (λ i. All (λ b. b.0 ≢ i) m) ((eq_iff j k).0 hit) h.0, h.1)
    | inr miss ↦ rw miss (
      insert-All (λ b. b.0 ≢ j) k v m (λ same. ground (arith, eq_iff j k, same)) h.0,
      insert-IsMap k v m h.1,
    )
  ]

  pub lookup-none : (k : K) (m : List (K × V)) → All (λ b. b.0 ≢ k) m → lookup k m ≡ none
  unfolding lookup
  lookup-none k [] h = refl
  lookup-none k ((j, w) ∷ m) h = ground (arith, eq_iff j k, lookup-none k m h.1)

-- `for fid, k := range m { if k == v { delete(m, fid) } }`.
module _ {ℓ κ} {K : Type ℓ} {V : Type κ} ⦃e : Eq V⦄ where
  unfoldable pub delete_value : V → List (K × V) → List (K × V)
  delete_value v [] = []
  delete_value v ((j, w) ∷ m) =
      let rest = delete_value v m in if w == v then rest else (j, w) ∷ rest

  -- No entry with that value stays.
  pub delete_value-All_ne : (v : V) (m : List (K × V)) → All (λ b. b.1 ≢ v) (delete_value v m)
  unfolding delete_value
  delete_value-All_ne v [] = tt
  delete_value-All_ne v ((j, w) ∷ m) = ground (arith, eq_iff w v, delete_value-All_ne v m)

  -- What holds of every entry with another value holds of all that stay.
  pub delete_value-All {μ ν} :
      (P : K × V → Type μ) (Q : K × V → Type ν) (v : V) (m : List (K × V))
      → ((b : K × V) → b.1 ≢ v → P b → Q b)
      → All P m
      → All Q (delete_value v m)
  unfolding delete_value
  delete_value-All P Q v [] f h = tt
  delete_value-All P Q v ((j, w) ∷ m) f h =
      ground (arith, eq_iff w v, f (j, w), delete_value-All P Q v m f h.1)

-- An entry with another value is still found.
pub lookup-delete_value_ne {ℓ κ} :
    {K : Type ℓ} {V : Type κ} ⦃e : Eq K⦄ ⦃f : Eq V⦄ (k : K) (v w : V) (m : List (K × V))
    → lookup k m ≡ some w
    → w ≢ v
    → lookup k (delete_value v m) ≡ some w
unfolding lookup delete_value
lookup-delete_value_ne k v w [] h n = cc
lookup-delete_value_ne k v w ((j, u) ∷ m) h n =
    ground (arith, eq_iff j k, eq_iff u v, lookup-delete_value_ne k v w m)

module _ {ℓ κ} {K : Type ℓ} {V : Type κ} ⦃e : Eq V⦄ where
  pub delete_value-IsMap : (v : V) (m : List (K × V)) → IsMap m → IsMap (delete_value v m)
  unfolding delete_value
  delete_value-IsMap v [] h = tt
  delete_value-IsMap v ((j, w) ∷ m) h = elim (Bool-cases (w == v)) [
    | inl hit ↦ rw hit (delete_value-IsMap v m h.1)
    | inr miss ↦ rw miss (delete_value-All _ _ v m (λ b _ p. p) h.0, delete_value-IsMap v m h.1)
  ]

-- A key with that value is found no more.
pub lookup-delete_value_eq {ℓ κ} :
    {K : Type ℓ} {V : Type κ} ⦃e : Eq K⦄ ⦃f : Eq V⦄ (k : K) (v : V) (m : List (K × V))
    → IsMap m
    → lookup k m ≡ some v
    → lookup k (delete_value v m) ≡ none
unfolding lookup delete_value
lookup-delete_value_eq k v [] h l = refl
lookup-delete_value_eq k v ((j, u) ∷ m) h l = elim (Bool-cases (j == k)) [
  | inl hit ↦
      let here : u ≡ v = ground arith in
      let only = subst (λ i. All (λ b. b.0 ≢ i) m) ((eq_iff j k).0 hit) h.0 in
      ground (
        arith,
        eq_iff u v,
        lookup-none k (delete_value v m) (delete_value-All _ _ v m (λ b _ p. p) only),
      )
  | inr miss ↦ ground (arith, eq_iff u v, lookup-delete_value_eq k v m h.1)
]
