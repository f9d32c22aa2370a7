-- ===== src/Actor/Parse.antt =====
-- `parseActorRef` of cmd/egress-broker/server.go.
use substrate_ws_poc.Prelude.{
  ℕ, zero, suc, ◌+◌, ◌-◌, ◌<◌, Bool, false, ◌||◌, [], ◌∷◌, ◌++◌, Option, none, some, ◌≡◌, refl, ◌≢◌,
  ◌↔◌, arith, leb, length, take, drop, if◌then◌else◌, nat_eq, ◌==◌, Option-cases, inl, inr,
  length-append, take-length-append, ap, ◌∙◌, eq_iff,
}
use substrate_ws_poc.Prelude.Bytes.{Bytes}
use substrate_ws_poc.Actor.Ref.{ActorRef, to_string}

-- `strings.IndexByte`, where `none` is -1.
unfoldable pub index_byte : ℕ → Bytes → Option ℕ
index_byte c [] = none
index_byte c (b ∷ s) =
    if b == c then some 0 else elim (index_byte c s) [ none ↦ none | some i ↦ some (suc i) ]

-- `strings.ContainsRune` for an ASCII character.
unfoldable pub contains : ℕ → Bytes → Bool
contains c [] = false
contains c (b ∷ s) = b == c || contains c s

parse_at : Bytes → Option ℕ → Option ActorRef
parse_at v none = none
parse_at v (some i) =
    if i == 0 || leb (length v - 1) i
    then none
    else (let name = drop (i + 1) v in
        if contains b'/' name then none else some (record { atespace = take i v; name = name }))

unfoldable pub parse_actor_ref : Bytes → Option ActorRef
unfolding parse_at
parse_actor_ref v = parse_at v (index_byte b'/' v)

-- The identities that the header can carry.
pub record IsNamed (r : ActorRef) : Type 0 where
  pub atespace_given : r.atespace ≢ []
  pub atespace_plain : contains b'/' r.atespace ≡ false
  pub name_given : r.name ≢ []
  pub name_plain : contains b'/' r.name ≡ false

-- The first occurrence splits the text.
index_byte-split :
    (c : ℕ) (v : Bytes) (i : ℕ)
    → index_byte c v ≡ some i
    → (v ≡ take i v ++ (c ∷ drop (suc i) v))
      × (contains c (take i v) ≡ false)
      × (length (take i v) ≡ i)
unfolding index_byte contains
index_byte-split c [] i h = cc
index_byte-split c (b ∷ s) zero h = ground (arith, eq_iff b c)
index_byte-split c (b ∷ s) (suc i) h = ground (arith, eq_iff b c, index_byte-split c s i)

index_byte-append :
    (c : ℕ) (s t : Bytes) → contains c s ≡ false → index_byte c (s ++ (c ∷ t)) ≡ some (length s)
unfolding index_byte contains
index_byte-append c [] t h = ground arith
index_byte-append c (b ∷ s) t h = ground (arith, index_byte-append c s t)

ne-nil : {xs : Bytes} → 0 < length xs → xs ≢ []
ne-nil {xs} h e = omega (arith, ap length e)

-- The text after the slash.
drop_after : (i : ℕ) (v : Bytes) → drop (i + 1) v ≡ drop (suc i) v
drop_after i v = let next : i + 1 ≡ suc i = omega arith in ap (λ n. drop n v) next

length-pos : (xs : Bytes) → xs ≢ [] → 0 < length xs
length-pos [] n = absurd (n refl)
length-pos (x ∷ xs) n = omega arith

drop-suc-length-append :
    (xs : Bytes) (c : ℕ) (ys : Bytes) → drop (suc (length xs)) (xs ++ (c ∷ ys)) ≡ ys
drop-suc-length-append [] c ys = refl
drop-suc-length-append (x ∷ xs) c ys = drop-suc-length-append xs c ys

parse_sound :
    (v : Bytes) (r : ActorRef) → parse_actor_ref v ≡ some r → (v ≡ to_string r) × IsNamed r
unfolding parse_actor_ref to_string
parse_sound v r h = elim (Option-cases (index_byte b'/' v)) [
  | inl absent ↦ absurd (ground arith)
  | inr (i, at) ↦
      let (split, plain, long) = index_byte-split b'/' v i at in
      let counted : length v ≡ length (take i v) + suc (length (drop (suc i) v)) =
        ap length split ∙ length-append (take i v) _ in
      let after = drop_after i v in
      (
        ground arith,
        record {
          atespace_given = ne-nil (ground arith);
          atespace_plain = ground arith;
          name_given = ne-nil (ground arith);
          name_plain = ground arith;
        },
      )
]

parse_complete : (r : ActorRef) → IsNamed r → parse_actor_ref (to_string r) ≡ some r
unfolding parse_actor_ref to_string
parse_complete r v =
    let i = length r.atespace in
    let whole : length (to_string r) ≡ i + suc (length r.name) = length-append r.atespace _ in
    let before = take-length-append r.atespace (b'/' ∷ r.name) in
    let after = drop_after i (to_string r) in
    let rest : drop (suc i) (to_string r) ≡ r.name =
      drop-suc-length-append r.atespace b'/' r.name in
    ground (
      arith,
      index_byte-append b'/' r.atespace r.name v.atespace_plain,
      length-pos r.atespace v.atespace_given,
      length-pos r.name v.name_given,
    )

-- A text is read as an identity exactly when it is the text of that identity, whose parts are not
-- empty and hold no slash.
pub parse_actor_ref_iff :
    (v : Bytes) (r : ActorRef) → (parse_actor_ref v ≡ some r) ↔ ((v ≡ to_string r) × IsNamed r)
parse_actor_ref_iff v r = (parse_sound v r, λ h. rw h.0 (parse_complete r h.1))
