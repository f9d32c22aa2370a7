-- ===== src/Tls/Minter.antt =====
-- `certMinter` of cmd/egress-broker/tlsmint.go. The certificates' encodings, the random source and
-- the signing are parameters; keys are their encodings.
use substrate_ws_poc.Prelude.{
  ℕ, ◌+◌, ◌-◌, ◌*◌, Bool, not, List, [], ◌∷◌, Option, none, some, if◌then◌else◌, ◌==◌,
}
use substrate_ws_poc.Prelude.Bytes.{Bytes, codes, bytes_eq}
use substrate_ws_poc.Prelude.Dict.{lookup, insert}

pub record CaCert : Type 0 where
  pub raw : Bytes
  pub is_ca : Bool

-- The fields of the template that depend on the call. Times are nanoseconds since some origin more
-- than an hour before any call.
pub record Template : Type 0 where
  pub serial : ℕ
  pub common_name : Bytes
  pub not_before : ℕ
  pub not_after : ℕ
  pub dns_names : List Bytes

pub record Certificate : Type 0 where
  pub certificate : List Bytes
  pub private_key : Bytes
  pub leaf : Template

pub record Minter : Type 0 where
  pub ca_cert : CaCert
  pub ca_key : Bytes
  pub cache : List (Bytes × Certificate)

pub data Error : Type 0 where
  no_cert_block bad_cert not_ca no_key_block bad_key not_ec_key no_leaf_key no_serial not_signed :
      Error

pub data Result {ℓ} (A : Type ℓ) : Type ℓ where
  ok : A → Result A
  err : Error → Result A

-- What another kind of key in PKCS#8 is.
pub data Pkcs8 : Type 0 where
  unparsed other_kind : Pkcs8
  ec_key : Bytes → Pkcs8

-- encoding/pem and crypto/x509 as far as the code calls them.
pub record Crypto : Type 0 where
  pub pem_decode : Bytes → Option Bytes
  pub parse_certificate : Bytes → Option CaCert
  pub parse_ec_private_key : Bytes → Option Bytes
  pub parse_pkcs8 : Bytes → Pkcs8
  pub create_certificate : Template → CaCert → Bytes → Bytes → Option Bytes

-- What one call draws, and the time at which it runs.
pub record Draw : Type 0 where
  pub leaf_key : Option Bytes
  pub serial : Option ℕ
  pub now : ℕ

from_pkcs8 : Pkcs8 → Result Bytes
from_pkcs8 unparsed = err bad_key
from_pkcs8 other_kind = err not_ec_key
from_pkcs8 (ec_key k) = ok k

unfoldable pub parse_ec_key : Crypto → Bytes → Result Bytes
unfolding from_pkcs8
parse_ec_key c der = elim (c.parse_ec_private_key der) [
  | some k ↦ ok k
  | none ↦ from_pkcs8 (c.parse_pkcs8 der)
]

with_key : CaCert → Result Bytes → Result Minter
with_key cert (err e) = err e
with_key cert (ok key) = ok (record { ca_cert = cert; ca_key = key; cache = [] })

with_cert : Crypto → CaCert → Option Bytes → Result Minter
unfolding with_key
with_cert c cert none = err no_key_block
with_cert c cert (some block) = with_key cert (parse_ec_key c block)

with_block : Crypto → Bytes → Option CaCert → Result Minter
unfolding with_cert
with_block c key_pem none = err bad_cert
with_block c key_pem (some cert) =
    if not cert.is_ca then err not_ca else with_cert c cert (c.pem_decode key_pem)

unfoldable pub new_cert_minter : Crypto → Bytes → Bytes → Result Minter
unfolding with_block
new_cert_minter c cert_pem key_pem = elim (c.pem_decode cert_pem) [
  | none ↦ err no_cert_block
  | some block ↦ with_block c key_pem (c.parse_certificate block)
]

abbrev pub hour : ℕ
hour = 3_600_000_000_000

unfoldable pub template : Bytes → ℕ → ℕ → Template
template name serial now = record {
  serial = serial;
  common_name = name;
  not_before = now - hour;
  not_after = now + 365 * 24 * hour;
  dns_names = name ∷ [];
}

signed : Bytes → Template → Bytes → Minter → Option Bytes → Minter × Result Certificate
signed name t key m none = (m, err not_signed)
signed name t key m (some der) =
    let cert : Certificate = record {
      certificate = der ∷ m.ca_cert.raw ∷ [];
      private_key = key;
      leaf = t;
    } in
    (record m { cache = insert name cert m.cache }, ok cert)

mint_with : Crypto → Bytes → ℕ → Minter → Option Bytes → Option ℕ → Minter × Result Certificate
unfolding signed template
mint_with c name now m none serial = (m, err no_leaf_key)
mint_with c name now m (some key) none = (m, err no_serial)
mint_with c name now m (some key) (some serial) =
    let t = template name serial now in
    signed name t key m (c.create_certificate t m.ca_cert key m.ca_key)

cached_or : Crypto → Draw → Bytes → Minter → Option Certificate → Minter × Result Certificate
unfolding mint_with
cached_or c d name m (some cert) = (m, ok cert)
cached_or c d name m none = mint_with c name d.now m d.leaf_key d.serial

unfoldable pub cert_for : Crypto → Draw → Bytes → Minter → Minter × Result Certificate
unfolding cached_or
cert_for c d name m = cached_or c d name m (lookup name m.cache)

-- The name for which a handshake gets its certificate.
unfoldable pub requested : Bytes → Bytes
requested name = if name == [] then codes "slack.com" else name

unfoldable pub get_certificate : Crypto → Draw → Bytes → Minter → Minter × Result Certificate
unfolding cert_for requested
get_certificate c d server_name m = cert_for c d (requested server_name) m
