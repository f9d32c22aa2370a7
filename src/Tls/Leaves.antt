-- ===== src/Tls/Leaves.antt =====
-- What `certMinter` of cmd/egress-broker/tlsmint.go promises.
use substrate_ws_poc.Prelude.{
  ℕ, ◌≤◌, [], ◌∷◌, none, some, ◌≡◌, ◌≢◌, refl, ap, ◌∙◌, subst, arith, All, Option-cases, inl, inr,
  eq_iff, eq_refl,
}
use substrate_ws_poc.Prelude.Bytes.{Bytes, codes, bytes_eq}
use substrate_ws_poc.Prelude.Dict.{lookup, insert, insert-All, lookup-All, lookup-insert_self}
use substrate_ws_poc.Tls.Minter.{
  CaCert, Certificate, Minter, Error, Result, ok, err, no_leaf_key, no_serial, not_signed, Crypto,
  Draw, template, cert_for, requested, get_certificate,
}

-- The certificate is a leaf for the name that the CA has signed, sent with the CA's.
pub record IsLeaf (c : Crypto) (ca : CaCert) (ca_key : Bytes) (name : Bytes) (cert : Certificate)
    : Type 0 where
  pub der : Bytes
  pub signed : c.create_certificate cert.leaf ca cert.private_key ca_key ≡ some der
  pub sent : cert.certificate ≡ der ∷ ca.raw ∷ []
  pub names : cert.leaf.dns_names ≡ name ∷ []
  pub subject : cert.leaf.common_name ≡ name
  pub lasting : cert.leaf.not_before ≤ cert.leaf.not_after

abbrev pub AreLeaves : Crypto → Minter → Type 0
AreLeaves c m = All (λ b. IsLeaf c m.ca_cert m.ca_key b.0 b.1) m.cache

abbrev pub Returns : (Certificate → Type 0) → Result Certificate → Type 0
Returns P (ok cert) = P cert
Returns P (err e) = Unit

-- The three ways in which a call can go.
pub data Minted (c : Crypto) (d : Draw) (name : Bytes) (m n : Minter) (r : Result Certificate)
    : Type 0 where
  again :
      (cert : Certificate)
      → lookup name m.cache ≡ some cert
      → n ≡ m
      → r ≡ ok cert
      → Minted c d name m n r
  fresh :
      (key der : Bytes) (serial : ℕ)
      → lookup name m.cache ≡ none
      → c.create_certificate (template name serial d.now) m.ca_cert key m.ca_key ≡ some der
      → n ≡ record m {
        cache =
            insert name
              (record {
                certificate = der ∷ m.ca_cert.raw ∷ [];
                private_key = key;
                leaf = template name serial d.now;
              })
              m.cache;
      }
      → r
        ≡ ok (record {
          certificate = der ∷ m.ca_cert.raw ∷ [];
          private_key = key;
          leaf = template name serial d.now;
        })
      → Minted c d name m n r
  failed : (e : Error) → lookup name m.cache ≡ none → n ≡ m → r ≡ err e → Minted c d name m n r

cert_for-Minted :
    (c : Crypto) (d : Draw) (name : Bytes) (m : Minter)
    → Minted c d name m (cert_for c d name m).0 (cert_for c d name m).1
unfolding cert_for
cert_for-Minted c d name m = elim (Option-cases (lookup name m.cache)) [
  | inr (cert, here) ↦ again cert here (rw (here) refl) (rw (here) refl)
  | inl absent ↦ elim (Option-cases d.leaf_key) [
    | inl no_key ↦ failed no_leaf_key absent (ground arith) (ground arith)
    | inr (key, drawn) ↦ elim (Option-cases d.serial) [
      | inl no_number ↦ failed no_serial absent (ground arith) (ground arith)
      | inr (serial, number) ↦
          elim (Option-cases
            (c.create_certificate (template name serial d.now) m.ca_cert key m.ca_key)) [
              | inl refused ↦
                  failed not_signed absent (rw (absent, drawn, number, refused) refl)
                    (rw (absent, drawn, number, refused) refl)
              | inr (der, good) ↦
                  fresh key der serial absent good (rw (absent, drawn, number, good) refl)
                    (rw (absent, drawn, number, good) refl)
            ]
    ]
  ]
]

IsLeaf-template :
    (c : Crypto) (ca : CaCert) (ca_key name key der : Bytes) (serial now : ℕ)
    → c.create_certificate (template name serial now) ca key ca_key ≡ some der
    → IsLeaf c ca ca_key name (record {
      certificate = der ∷ ca.raw ∷ [];
      private_key = key;
      leaf = template name serial now;
    })
unfolding template
IsLeaf-template c ca ca_key name key der serial now good = record {
  der = der;
  signed = good;
  sent = refl;
  names = refl;
  subject = refl;
  lasting = omega arith;
}

Minted-IsLeaf :
    (c : Crypto) (d : Draw) (name : Bytes) (m n : Minter) (r : Result Certificate)
    → Minted c d name m n r
    → AreLeaves c m
    → AreLeaves c n × Returns (IsLeaf c m.ca_cert m.ca_key name) r
Minted-IsLeaf c d name m n r (again cert here same good) v =
    rw (same, good)
      (v, lookup-All (λ b. IsLeaf c m.ca_cert m.ca_key b.0 b.1) name cert m.cache v here)
Minted-IsLeaf c d name m n r (fresh key der serial absent made same good) v =
    let leaf = IsLeaf-template c m.ca_cert m.ca_key name key der serial d.now made in
    rw (same, good)
      (insert-All (λ b. IsLeaf c m.ca_cert m.ca_key b.0 b.1) name _ m.cache leaf v, leaf)
Minted-IsLeaf c d name m n r (failed e absent same bad) v = rw (same, bad) (v, tt)

cert_for_cached :
    (c : Crypto) (d : Draw) (name : Bytes) (cert : Certificate) (m : Minter)
    → lookup name m.cache ≡ some cert
    → cert_for c d name m ≡ (m, ok cert)
unfolding cert_for
cert_for_cached c d name cert m here = rw here refl

requested_named : (name : Bytes) → name ≢ [] → requested name ≡ name
unfolding requested
requested_named name h = ground (arith, eq_iff name [])

requested_none : requested [] ≡ codes "slack.com"
unfolding requested
requested_none = rw (eq_refl {K = Bytes} []) refl

-- If every cached certificate is a leaf for its name that the CA has signed, so it is after a
-- handshake; and a certificate that the handshake gets is such a leaf for the name that it asked for,
-- or for slack.com where it named none.
pub get_certificate-IsLeaf :
    (c : Crypto) (d : Draw) (server_name : Bytes) (m : Minter)
    → AreLeaves c m
    → let (n, r) = get_certificate c d server_name m in
      AreLeaves c n
      × (server_name ≢ [] → Returns (IsLeaf c m.ca_cert m.ca_key server_name) r)
      × (server_name ≡ [] → Returns (IsLeaf c m.ca_cert m.ca_key (codes "slack.com")) r)
unfolding get_certificate
get_certificate-IsLeaf c d server_name m v =
    let name = requested server_name in
    let (all, leaf) = Minted-IsLeaf c d name m _ _ (cert_for-Minted c d name m) v in
    let r = (cert_for c d name m).1 in
    let is_for : Bytes → Type 0 = λ n. Returns (IsLeaf c m.ca_cert m.ca_key n) r in
    (
      all,
      λ named. subst is_for (requested_named server_name named) leaf,
      λ empty. subst is_for (ap requested empty ∙ requested_none) leaf,
    )

Minted-lookup :
    (c : Crypto) (d : Draw) (name : Bytes) (m n : Minter) (r : Result Certificate)
    (cert : Certificate)
    → Minted c d name m n r
    → r ≡ ok cert
    → lookup name n.cache ≡ some cert
Minted-lookup c d name m n r cert (again old here same good) e = rw same (ground arith)
Minted-lookup c d name m n r cert (fresh key der serial absent made same good) e =
    let found =
      lookup-insert_self name
        (record {
          certificate = der ∷ m.ca_cert.raw ∷ [];
          private_key = key;
          leaf = template name serial d.now;
        })
        m.cache in
    rw same (ground arith)
Minted-lookup c d name m n r cert (failed x absent same bad) e = cc

-- Once a handshake has got a certificate, every later one for that name gets the same, and leaves
-- the cache as it is.
get_certificate-again :
    (c : Crypto) (d later : Draw) (server_name : Bytes) (m : Minter) (cert : Certificate)
    → (get_certificate c d server_name m).1 ≡ ok cert
    → get_certificate c later server_name (get_certificate c d server_name m).0
      ≡ ((get_certificate c d server_name m).0, ok cert)
unfolding get_certificate
get_certificate-again c d later server_name m cert good =
    let name = requested server_name in
    cert_for_cached c later name cert _
      (Minted-lookup c d name m _ _ cert (cert_for-Minted c d name m) good)
