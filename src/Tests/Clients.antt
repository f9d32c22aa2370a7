-- ===== src/Tests/Clients.antt =====
-- The client of the Control service, the dialer of Slack, and the minter.
use substrate_ws_poc.Prelude.{
  List, [], ◌∷◌, ◌++◌, some, ◌≡◌, ◌≢◌, refl, true, arith, if◌then◌else◌, ◌==◌, nat_eq,
}
use substrate_ws_poc.Prelude.Bytes.{Bytes, codes, bytes_eq, bytes_beq}
use substrate_ws_poc.Prelude.Dict.{lookup}
use substrate_ws_poc.Control.Pages.{Actor, page, Control, locate_by_pod_ip}
use substrate_ws_poc.Control.Chain.{Chain, last, more, Answers, locate_by_pod_ip-Answers}
use substrate_ws_poc.Server.Locate.{Outcome}
use substrate_ws_poc.Slack.Dial.{Dialer, done, open_connection, dial}
use substrate_ws_poc.Tls.Minter.{
  Minter, ok, unparsed, Crypto, Draw, get_certificate, Certificate, template,
}
use substrate_ws_poc.Tls.Leaves.{IsLeaf, AreLeaves, Returns, get_certificate-IsLeaf}

abbrev actor : Bytes → Bytes → Actor
actor ip name = record {
  ateom_pod_ip = ip;
  running = true;
  atespace = codes "demo";
  actor_id = name;
}

abbrev first_page : List Actor
first_page = actor (codes "10.0.0.1") (codes "a") ∷ []

abbrev last_page : List Actor
last_page = actor (codes "10.0.0.2") (codes "b") ∷ []

-- Two pages, whatever the tokens.
abbrev control : Control
control = record {
  list_actors = λ i token. if i == 0 then page first_page (1 ∷ []) else page last_page [];
  quote = λ s. s;
}

two_pages : Chain control 2 0 [] (first_page ++ last_page)
two_pages =
    more 1 0 [] (1 ∷ []) first_page last_page refl (λ e. cc) (last 1 (1 ∷ []) last_page refl)

locate_by_pod_ip-Answers_example :
    (o : Outcome) × (locate_by_pod_ip control (codes "10.0.0.2") 5 ≡ some o)
    × Answers control (codes "10.0.0.2") (first_page ++ last_page) o
locate_by_pod_ip-Answers_example =
    locate_by_pod_ip-Answers control (codes "10.0.0.2") 2 5 (first_page ++ last_page) two_pages
      (omega arith)

abbrev crypto : Crypto
crypto = record {
  pem_decode = λ s. some s;
  parse_certificate = λ s. some (record { raw = s; is_ca = true });
  parse_ec_private_key = λ s. some s;
  parse_pkcs8 = λ s. unparsed;
  create_certificate = λ t ca key ca_key. some (key ++ ca_key);
}

abbrev draw : Draw
draw = record { leaf_key = some (5 ∷ []); serial = some 77; now = 10_000_000_000_000 }

abbrev minter : Minter
minter = record { ca_cert = record { raw = 1 ∷ []; is_ca = true }; ca_key = 2 ∷ []; cache = [] }

abbrev minted : Certificate
minted = record {
  certificate = (5 ∷ 2 ∷ []) ∷ (1 ∷ []) ∷ [];
  private_key = 5 ∷ [];
  leaf = template (codes "slack.com") 77 10_000_000_000_000;
}

abbrev no_name : Bytes
no_name = []

get_certificate-IsLeaf_example :
    let (n, r) = get_certificate crypto draw no_name minter in
    AreLeaves crypto n
    × (no_name ≢ [] → Returns (IsLeaf crypto minter.ca_cert minter.ca_key no_name) r)
    × (no_name ≡ [] → Returns (IsLeaf crypto minter.ca_cert minter.ca_key (codes "slack.com")) r)
get_certificate-IsLeaf_example = get_certificate-IsLeaf crypto draw no_name minter tt

mints : (get_certificate crypto draw [] minter).1 ≡ ok minted
unfolding get_certificate lookup bytes_beq
mints = refl

abbrev pub dialer : Dialer
dialer = record {
  api_base_url = codes "https://slack.com";
  takes = λ url. true;
  call = λ out. some (1 ∷ []);
  decode =
      λ body. some (record { ok = true; url = codes "wss://wss-primary.slack.com"; error = [] });
  is_url = λ url. true;
  dial_ws = λ url. some 4;
}

dials : dial dialer (codes "xapp-1") ≡ done 4
unfolding dial open_connection
dials = refl
