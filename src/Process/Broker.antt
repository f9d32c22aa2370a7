-- ===== src/Process/Broker.antt =====
-- `main` of cmd/egress-broker/main.go up to the call of `ListenAndServeTLS`, with the constructors
-- that it calls. The files, gRPC, encoding/json and crypto/x509 are parameters.
pub mod Started
pub mod Ends
use substrate_ws_poc.Prelude.{
  ℕ, Bool, true, false, [], ◌∷◌, ◌++◌, Option, none, some, if◌then◌else◌, ◌==◌, nat_eq,
}
use substrate_ws_poc.Prelude.Bytes.{Bytes, codes, bytes_eq}
use substrate_ws_poc.Prelude.Int.{pos}
use substrate_ws_poc.SocketMode.{Json, Envelope, zero_envelope, type_hello}
use substrate_ws_poc.Session.State.{Config}
use substrate_ws_poc.Server.Open.{Server}
use substrate_ws_poc.Tls.Minter.{Minter, Error, Result, ok, err, Crypto, new_cert_minter}
use substrate_ws_poc.Process.Parts.{
  Credentials, skips_verify, DialedControl, client, not_dialed, ControlClient, new_control_client,
  RealSlackDialer, new_real_slack_dialer, TlsConfig, tls_config,
}
use substrate_ws_poc.Process.Helper.{File, unread, contents}

pub record Flags : Type 0 where
  pub listen : Bytes
  pub ca_cert : Bytes
  pub ca_key : Bytes
  pub dns_upstream : Bytes
  pub slack_api_base : Bytes
  pub wss_host : Bytes
  pub wss_path : Bytes
  pub ateapi_address : Bytes
  pub boot_on_resume : Bool
  pub deliver_delay : ℕ
  pub idle_grace : ℕ

abbrev pub default_flags : Flags
default_flags = record {
  listen = codes ":443";
  ca_cert = codes "/etc/ws-poc/ca/tls.crt";
  ca_key = codes "/etc/ws-poc/ca/tls.key";
  dns_upstream = codes "8.8.8.8:53";
  slack_api_base = codes "https://slack.com";
  wss_host = codes "wss-primary.slack.com";
  wss_path = codes "/ws-poc/socketmode";
  ateapi_address = codes "api.ate-system.svc:443";
  boot_on_resume = false;
  deliver_delay = 0;
  idle_grace = 5_000_000_000;
}

-- The machine and the libraries. The error of `NewClient` is `none` if it is nil.
pub record Host : Type 0 where
  pub read_file : Bytes → File
  pub crypto : Crypto
  pub new_client : Credentials → Bytes → Option Bytes

pub data LoadError : Type 0 where
  reading_cert : Bytes → LoadError
  reading_key : Bytes → LoadError
  loading : Error → LoadError

pub data Loaded : Type 0 where
  minter : Minter → Loaded
  not_loaded : LoadError → Loaded

minter_of : Result Minter → Loaded
minter_of (ok m) = minter m
minter_of (err e) = not_loaded (loading e)

with_key_file : Crypto → Bytes → File → Loaded
unfolding minter_of
with_key_file c cert_pem (unread e) = not_loaded (reading_key e)
with_key_file c cert_pem (contents key_pem) = minter_of (new_cert_minter c cert_pem key_pem)

with_cert_file : Host → Bytes → File → Loaded
unfolding with_key_file
with_cert_file w key_path (unread e) = not_loaded (reading_cert e)
with_cert_file w key_path (contents cert_pem) =
    with_key_file w.crypto cert_pem (w.read_file key_path)

-- `newCertMinterFromFiles`.
unfoldable pub new_cert_minter_from_files : Host → Bytes → Bytes → Loaded
unfolding with_cert_file
new_cert_minter_from_files w cert_path key_path = with_cert_file w key_path (w.read_file cert_path)

-- `helloFrame`; `none` is a panic of `mustJSON`.
unfoldable pub hello_frame : ⦃json : Json⦄ → Option Bytes
hello_frame ⦃json⦄ =
    json.marshal_envelope (record zero_envelope { type = type_hello; num_connections = pos 1 })

-- `NewRegistry`, with the package's variable.
new_registry : ℕ → ℕ → Bytes → Config
new_registry deliver_delay idle_grace hello = record {
  deliver_delay = deliver_delay;
  idle_grace = idle_grace;
  hello_frame = hello;
}

new_server : Bytes → Bytes → Server
new_server host path = record {
  settings = record { wss_host = host; wss_path = path };
  sessions = [];
  tickets = [];
}

-- What the handlers of the process run with.
pub record Broker : Type 0 where
  pub address : Bytes
  pub control : ControlClient
  pub slack : RealSlackDialer
  pub registry : Config
  pub server : Server
  pub tls : TlsConfig

-- The process panics, exits with status 1, or serves.
pub data Start : Type 0 where
  panics : Start
  exits : Start
  serves : Broker → Start

unfoldable pub assembled : Flags → Bytes → Minter → Bytes → Broker
unfolding new_registry new_server
assembled f hello m api = record {
  address = f.listen;
  control = new_control_client api f.boot_on_resume;
  slack = new_real_slack_dialer f.dns_upstream f.slack_api_base;
  registry = new_registry f.deliver_delay f.idle_grace hello;
  server = new_server f.wss_host f.wss_path;
  tls = tls_config m;
}

-- `dialControl`.
unfoldable pub dial_control : Host → Bytes → DialedControl
dial_control w addr = elim (w.new_client skips_verify addr) [
  | none ↦ client addr
  | some e ↦ not_dialed e
]

with_control : Flags → Bytes → Minter → DialedControl → Start
with_control f hello m (client api) = serves (assembled f hello m api)
with_control f hello m (not_dialed e) = exits

with_minter : Host → Flags → Bytes → Loaded → Start
unfolding with_control
with_minter w f hello (not_loaded e) = exits
with_minter w f hello (minter m) = with_control f hello m (dial_control w f.ateapi_address)

-- The package's variables are initialised before `main`.
started : Host → Flags → Option Bytes → Start
unfolding with_minter
started w f none = panics
started w f (some hello) = with_minter w f hello (new_cert_minter_from_files w f.ca_cert f.ca_key)

unfoldable pub start : ⦃json : Json⦄ → Host → Flags → Start
unfolding started
start ⦃json⦄ w f = started w f hello_frame
