-- ===== src/Tests/Processes.antt =====
-- The processes.
use substrate_ws_poc.Prelude.{
  true, false, [], ◌∷◌, ◌++◌, none, some, ◌≡◌, ◌↔◌, refl, if◌then◌else◌, ◌==◌,
}
use substrate_ws_poc.Prelude.Bytes.{Bytes, codes, bytes_eq, bytes_beq}
use substrate_ws_poc.Actor.{ActorRef}
use substrate_ws_poc.Tls.Minter.{Minter, Crypto, unparsed, new_cert_minter, parse_ec_key}
use substrate_ws_poc.Server.Tokens.{trim_space, drop_first, drop_last}
use substrate_ws_poc.Process.Helper.{
  Machine, contents, suspended, main, api_addr, actor_id_path, IsAsked, main_iff,
}
use substrate_ws_poc.Process.Broker.{
  Host, serves, default_flags, assembled, dial_control, new_cert_minter_from_files, start,
  hello_frame,
}
use substrate_ws_poc.Process.Broker.Ends
use substrate_ws_poc.Process.Broker.Ends.{
  Listen, server_closed, other, exited, EndsWell, main_ends_iff,
}
use substrate_ws_poc.Tests.Codec.{toy}

-- The files of the identity end in a newline.
abbrev machine : Machine
machine = record {
  read_file = λ path.
      contents ((if path == actor_id_path then codes "echo-1" else codes "demo") ++ 10 ∷ []);
  getenv = λ name. [];
  new_client = λ addr. none;
  suspend_actor = λ addr ref. none;
}

abbrev actor : ActorRef
actor = record { atespace = codes "demo"; name = codes "echo-1" }

asks_to_suspend : main machine ≡ suspended actor
unfolding main api_addr trim_space drop_first drop_last bytes_beq
asks_to_suspend = refl

main_iff_example : (main machine ≡ suspended actor) ↔ IsAsked machine actor
main_iff_example = main_iff machine actor

abbrev crypto : Crypto
crypto = record {
  pem_decode = λ pem. some pem;
  parse_certificate = λ der. some (record { raw = der; is_ca = true });
  parse_ec_private_key = λ der. some der;
  parse_pkcs8 = λ der. unparsed;
  create_certificate = λ t ca pub_key key. some pub_key;
}

abbrev host : Host
host = record {
  read_file = λ path. contents path;
  crypto = crypto;
  new_client = λ creds addr. none;
}

abbrev minter : Minter
minter = record {
  ca_cert = record { raw = codes "/etc/ws-poc/ca/tls.crt"; is_ca = true };
  ca_key = codes "/etc/ws-poc/ca/tls.key";
  cache = [];
}

abbrev api_address : Bytes
api_address = codes "api.ate-system.svc:443"

serves_by_default :
    start host default_flags ≡ serves (assembled default_flags (1 ∷ []) minter api_address)
unfolding start new_cert_minter_from_files new_cert_minter hello_frame toy assembled parse_ec_key
    dial_control
serves_by_default = refl

-- The server is closed by a signal, and fails without one.
abbrev listen : Listen
listen b true = some server_closed
listen b false = some (other (codes "bind: permission denied"))

main_ends_iff_example :
    (Ends.main host default_flags listen true ≡ exited 0) ↔ EndsWell host default_flags listen true
main_ends_iff_example = main_ends_iff host default_flags listen true

failed_listen : Ends.main host default_flags listen false ≡ exited 1
unfolding Ends.main start new_cert_minter_from_files new_cert_minter hello_frame toy parse_ec_key
    dial_control
failed_listen = refl
