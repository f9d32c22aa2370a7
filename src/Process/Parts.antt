-- ===== src/Process/Parts.antt =====
-- The parts that `main` of cmd/egress-broker/main.go puts together: the client of the Control service,
-- the dialer of realslack.go and the settings of TLS in tlsmint.go.
use mathlib.Core.List.{reverse, reverse-reverse, reverse-append}
use substrate_ws_poc.Prelude.{
  ℕ, zero, suc, ◌*◌, Bool, true, [], ◌∷◌, ◌++◌, ◌≡◌, ◌≢◌, refl, sym, ap, ◌∙◌, arith, if◌then◌else◌,
  ◌==◌, nat_eq, eq_iff, Bool-cases, inl, inr, replicate,
}
use substrate_ws_poc.Prelude.Bytes.{Bytes, codes, bytes_eq}
use substrate_ws_poc.Tls.Minter.{Minter}

-- `credentials.NewTLS` with the settings of `dialControl`.
pub record Credentials : Type 0 where
  pub insecure_skip_verify : Bool

abbrev pub skips_verify : Credentials
skips_verify = record { insecure_skip_verify = true }

-- A client is known by its address.
pub data DialedControl : Type 0 where
  client : Bytes → DialedControl
  not_dialed : Bytes → DialedControl

-- `controlClient`, but for the flights that its calls share.
pub record ControlClient : Type 0 where
  pub api : Bytes
  pub boot_on_resume : Bool

unfoldable pub new_control_client : Bytes → Bool → ControlClient
new_control_client api boot_on_resume = record { api = api; boot_on_resume = boot_on_resume }

abbrev pub seconds : ℕ → ℕ
seconds n = n * 1_000_000_000

-- `net.Dialer` with its resolver: the timeout, whether Go resolves, and the connection to the DNS
-- server, which ignores the network and the address that the resolver asks for.
pub record NetDialer : Type 0 where
  pub timeout : ℕ
  pub prefer_go : Bool
  pub dns_timeout : ℕ
  pub dns_network : Bytes
  pub dns_address : Bytes

pub record HttpClient : Type 0 where
  pub timeout : ℕ
  pub dial : NetDialer

pub record WsDialer : Type 0 where
  pub net_dial : NetDialer
  pub handshake_timeout : ℕ

pub record RealSlackDialer : Type 0 where
  pub http_client : HttpClient
  pub ws_dialer : WsDialer
  pub api_base_url : Bytes

unfoldable pub net_dialer : Bytes → NetDialer
net_dialer dns_upstream = record {
  timeout = seconds 10;
  prefer_go = true;
  dns_timeout = seconds 5;
  dns_network = codes "udp";
  dns_address = dns_upstream;
}

drop_slashes : Bytes → Bytes
drop_slashes [] = []
drop_slashes (a ∷ s) = let rest = drop_slashes s in if a == b'/' then rest else a ∷ s

abbrev default_base : Bytes → Bytes
default_base base = if base == [] then codes "https://" ++ codes "slack.com" else base

-- `strings.TrimRight` of the base URL, which is Slack's if it is empty.
unfoldable pub api_base_url : Bytes → Bytes
unfolding drop_slashes
api_base_url base = reverse (drop_slashes (reverse (default_base base)))

unfoldable pub new_real_slack_dialer : Bytes → Bytes → RealSlackDialer
unfolding net_dialer
new_real_slack_dialer dns_upstream base = record {
  http_client = record { timeout = seconds 30; dial = net_dialer dns_upstream };
  ws_dialer = record { net_dial = net_dialer dns_upstream; handshake_timeout = seconds 15 };
  api_base_url = api_base_url base;
}

-- `TLSConfig`: TLS 1.2 at least, and the minter whose `getCertificate` is asked.
pub record TlsConfig : Type 0 where
  pub min_version : ℕ
  pub minter : Minter

unfoldable pub tls_config : Minter → TlsConfig
tls_config m = record { min_version = 0x0303; minter = m }

drop_slashes-replicate : (s : Bytes) → (n : ℕ) × (s ≡ replicate n b'/' ++ drop_slashes s)
unfolding drop_slashes
drop_slashes-replicate [] = (0, refl)
drop_slashes-replicate (a ∷ s) = elim (Bool-cases (a == b'/')) [
  | inr other ↦ (0, rw other refl)
  | inl slash ↦
      let (n, rest) = drop_slashes-replicate s in
      (suc n, rw (slash, (eq_iff a b'/').0 slash) (ap (λ t. b'/' ∷ t) rest))
]

drop_slashes-head : (s t : Bytes) → drop_slashes s ≢ b'/' ∷ t
unfolding drop_slashes
drop_slashes-head [] t e = cc
drop_slashes-head (a ∷ s) t e = elim (Bool-cases (a == b'/')) [
  | inl slash ↦ drop_slashes-head s t (rw slash at e)
  | inr other ↦ ground (arith, eq_iff a b'/')
]

replicate-snoc : (n a : ℕ) → replicate n a ++ a ∷ [] ≡ a ∷ replicate n a
replicate-snoc zero a = refl
replicate-snoc (suc n) a = ap (λ t. a ∷ t) (replicate-snoc n a)

reverse-replicate : (n a : ℕ) → reverse (replicate n a) ≡ replicate n a
reverse-replicate zero a = refl
reverse-replicate (suc n) a =
    reverse-append (a ∷ []) (replicate n a)
    ∙ ap (λ t. t ++ a ∷ []) (reverse-replicate n a)
    ∙ replicate-snoc n a

-- The base URL is the one given, or Slack's, without the slashes at its end.
pub api_base_url_lem :
    (base : Bytes)
    → ((n : ℕ) × (default_base base ≡ api_base_url base ++ replicate n b'/'))
      × ((t : Bytes) → api_base_url base ≢ t ++ b'/' ∷ [])
unfolding api_base_url
api_base_url_lem base =
    let given = default_base base in
    let (n, split) = drop_slashes-replicate (reverse given) in
    (
      (
        n,
        sym (reverse-reverse given)
            ∙ ap reverse split
            ∙ reverse-append (replicate n b'/') (drop_slashes (reverse given))
            ∙ ap (λ t. reverse (drop_slashes (reverse given)) ++ t) (reverse-replicate n b'/'),
      ),
      λ t e. drop_slashes-head (reverse given) (reverse t) (
          sym (reverse-reverse (drop_slashes (reverse given)))
          ∙ ap reverse e
          ∙ reverse-append t (b'/' ∷ [])),
    )
