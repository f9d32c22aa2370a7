-- ===== src/Tls/Loading.antt =====
-- What `newCertMinter` of cmd/egress-broker/tlsmint.go loads.
use substrate_ws_poc.Prelude.{
  true, [], none, some, ◌≡◌, ◌⊎◌, ◌↔◌, refl, arith, Option-cases, inl, inr,
}
use substrate_ws_poc.Prelude.Bytes.{Bytes, bytes_eq}
use substrate_ws_poc.Tls.Minter.{
  Minter, Error, Result, ok, err, ec_key, unparsed, other_kind, Pkcs8, Crypto, new_cert_minter,
  parse_ec_key,
}

-- The minter of a CA's certificate and key.
pub record IsLoaded (c : Crypto) (cert_pem key_pem : Bytes) (m : Minter) : Type 0 where
  pub cert_block : Bytes
  pub key_block : Bytes
  pub certificate : c.pem_decode cert_pem ≡ some cert_block
  pub parsed : c.parse_certificate cert_block ≡ some m.ca_cert
  pub is_ca : m.ca_cert.is_ca ≡ true
  pub key : c.pem_decode key_pem ≡ some key_block
  pub read :
      (c.parse_ec_private_key key_block ≡ some m.ca_key)
      ⊎ ((c.parse_ec_private_key key_block ≡ none) × (c.parse_pkcs8 key_block ≡ ec_key m.ca_key))
  pub empty : m.cache ≡ []

Pkcs8-cases : (p : Pkcs8) → (p ≡ unparsed) ⊎ (p ≡ other_kind) ⊎ ((k : Bytes) × (p ≡ ec_key k))
Pkcs8-cases unparsed = inl refl
Pkcs8-cases other_kind = inr (inl refl)
Pkcs8-cases (ec_key k) = inr (inr (k, refl))

key_read :
    (c : Crypto) (der key : Bytes)
    → parse_ec_key c der ≡ ok key
    → (c.parse_ec_private_key der ≡ some key)
      ⊎ ((c.parse_ec_private_key der ≡ none) × (c.parse_pkcs8 der ≡ ec_key key))
unfolding parse_ec_key
key_read c der key e = elim (Option-cases (c.parse_ec_private_key der)) [
  | inr (k, here) ↦ inl (ground arith)
  | inl absent ↦ elim (Pkcs8-cases (c.parse_pkcs8 der)) [
    | inl bad ↦ absurd (ground arith)
    | inr (inl other) ↦ absurd (ground arith)
    | inr (inr (k, here)) ↦ inr (absent, ground arith)
  ]
]

Result-cases : (r : Result Bytes) → ((k : Bytes) × (r ≡ ok k)) ⊎ ((e : Error) × (r ≡ err e))
Result-cases (ok k) = inl (k, refl)
Result-cases (err e) = inr (e, refl)

loaded :
    (c : Crypto) (cert_pem key_pem : Bytes) (m : Minter)
    → new_cert_minter c cert_pem key_pem ≡ ok m
    → IsLoaded c cert_pem key_pem m
unfolding new_cert_minter
loaded c cert_pem key_pem m e = elim (Option-cases (c.pem_decode cert_pem)) [
  | inl absent ↦ absurd (ground arith)
  | inr (cert_block, first) ↦ elim (Option-cases (c.parse_certificate cert_block)) [
    | inl bad ↦ absurd (ground arith)
    | inr (cert, parsed) ↦ elim (Option-cases (c.pem_decode key_pem)) [
      | inl missing ↦ absurd (ground arith)
      | inr (key_block, second) ↦ elim (Result-cases (parse_ec_key c key_block)) [
        | inr (x, bad) ↦ absurd (ground arith)
        | inl (key, good) ↦ record {
          cert_block = cert_block;
          key_block = key_block;
          certificate = first;
          parsed = ground arith;
          is_ca = ground arith;
          key = second;
          read = key_read c key_block m.ca_key (ground arith);
          empty = ground arith;
        }
      ]
    ]
  ]
]

-- A minter is made exactly from a certificate that parses and is a CA's, and a key that parses; it
-- holds both and has an empty cache.
pub new_cert_minter_iff :
    (c : Crypto) (cert_pem key_pem : Bytes) (m : Minter)
    → (new_cert_minter c cert_pem key_pem ≡ ok m) ↔ IsLoaded c cert_pem key_pem m
unfolding new_cert_minter parse_ec_key
new_cert_minter_iff c cert_pem key_pem m = (loaded c cert_pem key_pem m, λ v. ground arith)
