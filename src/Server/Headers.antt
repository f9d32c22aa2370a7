-- ===== src/Server/Headers.antt =====
-- `http.Header` as a map from canonical names to values, and `copyHeader` of
-- cmd/egress-broker/server.go.
use substrate_ws_poc.Prelude.{
  ◌≢◌, List, [], ◌∷◌, ◌++◌, Option, none, some, ◌≡◌, refl, sym, ◌∙◌, arith, if◌then◌else◌, ◌==◌,
  eq_iff, All,
}
use mathlib.Core.List.{append_assoc, append-nil}
use substrate_ws_poc.Prelude.Bytes.{Bytes, bytes_eq}
use substrate_ws_poc.Prelude.Dict.{
  lookup, insert, delete, lookup-insert, lookup-delete, IsMap, lookup-none,
}

abbrev pub Headers : Type 0
Headers = List (Bytes × List Bytes)

or_empty : Option (List Bytes) → List Bytes
or_empty none = []
or_empty (some vs) = vs

-- The values of a name, none for a name that is absent.
unfoldable pub values : Bytes → Headers → List Bytes
unfolding or_empty
values k h = or_empty (lookup k h)

first_value : List Bytes → Bytes
first_value [] = []
first_value (v ∷ vs) = v

-- `Header.Get` with a canonical name.
unfoldable pub get : Bytes → Headers → Bytes
unfolding first_value
get k h = first_value (values k h)

values-nil : (k : Bytes) (vs : List Bytes) → values k [] ++ vs ≡ vs
unfolding values lookup
values-nil k vs = refl

module _ (canonical : Bytes → Bytes) where
  -- `Header.Add`.
  unfoldable pub add : Bytes → Bytes → Headers → Headers
  add k v h = insert (canonical k) (values (canonical k) h ++ v ∷ []) h

  unfoldable pub add_all : Bytes → List Bytes → Headers → Headers
  unfolding add
  add_all k [] dst = dst
  add_all k (v ∷ vs) dst = add_all k vs (add k v dst)

  -- `copyHeader`. The order of a Go map's range is that of the list.
  unfoldable pub copy_header : Headers → Headers → Headers
  unfolding add_all
  copy_header [] dst = dst
  copy_header ((k, vs) ∷ src) dst = copy_header src (add_all k vs dst)

  -- Every name of the map is spelled canonically.
  abbrev pub AreCanonical : Headers → Type 0
  AreCanonical h = All (λ b. canonical b.0 ≡ b.0) h

  values-add :
      (k j v : Bytes) (h : Headers)
      → canonical k ≡ k
      → values j (add k v h) ≡ (if k == j then values j h ++ v ∷ [] else values j h)
  unfolding add values
  values-add k j v h c = ground (arith, c, eq_iff k j, lookup-insert k j (values k h ++ v ∷ []) h)

  values-add_all :
      (k j : Bytes) (vs : List Bytes) (h : Headers)
      → canonical k ≡ k
      → values j (add_all k vs h) ≡ (if k == j then values j h ++ vs else values j h)
  unfolding add_all
  values-add_all k j [] h c = ground (arith, append-nil (values j h))
  values-add_all k j (v ∷ vs) h c = ground (
    arith,
    values-add_all k j vs (add k v h) c,
    values-add k j v h c,
    append_assoc (values j h) (v ∷ []) vs,
  )

  values-cons :
      (j k : Bytes) (vs : List Bytes) (src : Headers)
      → values j ((k, vs) ∷ src) ≡ (if k == j then vs else values j src)
  unfolding values lookup
  values-cons j k vs src = ground arith

  values-absent : (k : Bytes) (src : Headers) → All (λ b. b.0 ≢ k) src → values k src ≡ []
  unfolding values
  values-absent k src new = rw (lookup-none k src new) refl

  -- If the source is a map with canonical names, copying appends its values of each name to those
  -- of the target.
  pub values-copy_header :
      (j : Bytes) (src dst : Headers)
      → IsMap src
      → AreCanonical src
      → values j (copy_header src dst) ≡ values j dst ++ values j src
  unfolding copy_header values lookup
  values-copy_header j [] dst map canon = sym (append-nil (values j dst))
  values-copy_header j ((k, vs) ∷ src) dst (new, map) (c, canon) = ground (
    arith,
    values-copy_header j src (add_all k vs dst) map canon,
    values-add_all k j vs dst c,
    values-cons j k vs src,
    values-absent k src new,
    eq_iff k j,
    append-nil (values j dst ++ vs),
  )

  pub values-copy_header_new :
      (j : Bytes) (src : Headers)
      → IsMap src
      → AreCanonical src
      → values j (copy_header src []) ≡ values j src
  values-copy_header_new j src map canon =
      values-copy_header j src [] map canon ∙ values-nil j (values j src)

pub values-delete :
    (j k : Bytes) (h : Headers) → values k (delete j h) ≡ (if j == k then [] else values k h)
unfolding values
values-delete j k h = ground (arith, lookup-delete j k h)
