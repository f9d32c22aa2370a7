-- ===== src/Tests/Upstreams.antt =====
-- A client that takes the broker for Slack.
use substrate_ws_poc.Prelude.{
  ℕ, [], ◌∷◌, ◌++◌, Option, none, some, ◌≡◌, ◌≢◌, refl, true, false, arith, ◌==◌, nat_eq,
  if◌then◌else◌, length, take, drop, take-length-append, drop-length-append, Bool, eq_iff,
}
use substrate_ws_poc.Prelude.Bytes.{Bytes, codes, bytes_beq, bytes_eq}
use substrate_ws_poc.Prelude.Dict.{lookup}
use substrate_ws_poc.Session.RandIds.{encode_to_string}
use substrate_ws_poc.Slack.Dial.{OpenAnswer, done, open_call, open_connection}
use substrate_ws_poc.Server.Tokens.{IsBare, drop_first, drop_last, trim_space}
use substrate_ws_poc.Server.Locate.{located, locate_with_retry}
use substrate_ws_poc.Server.Open.{Url, World, identify, wss_url}
use substrate_ws_poc.Server.Socket.{
  served, attaches, detaches, serve, handle_actor_socket, to_socket, serve_http,
  path_connections_open,
}
use substrate_ws_poc.Server.Wire.{Wire, WireLaws, request_of, stand_in}
use substrate_ws_poc.Server.StandIn.{granting, open_connection-stand_in}
use substrate_ws_poc.Tests.Codec.{toy}
use substrate_ws_poc.Tests.Clients.{dialer}
use substrate_ws_poc.Tests.Servers.{echo, world, server}

abbrev of_bool : Bool → ℕ
of_bool b = if b then 1 else 0

-- An answer is whether it is ok, how long its URL is, the URL, and the error.
decoded : Bytes → Option OpenAnswer
decoded (a ∷ n ∷ s) = some (record { ok = a == 1; url = take n s; error = drop n s })
decoded _ = none

abbrev bootstrap : Url
bootstrap = record {
  scheme = codes "https";
  host = codes "slack.com";
  path = path_connections_open;
  raw_query = [];
}

-- The ticket of the random bytes 1 and 255.
abbrev asked : World
asked = record world { ticket = codes "01ff" }

abbrev socket : Url
socket = record {
  scheme = codes "wss";
  host = codes "wss-primary.slack.com";
  path = codes "/ws-poc/socketmode";
  raw_query = codes "ticket=01ff";
}

abbrev text : Url → Bytes
text u = u.scheme ++ codes "://" ++ u.host ++ u.path ++ codes "?" ++ u.raw_query

wire : Wire
unfolding decoded
wire = record {
  encode = λ a. of_bool a.ok ∷ length a.url ∷ a.url ++ a.error;
  decode = decoded;
  url_text = text;
  parse_url = λ t. if t == text socket then some socket else some bootstrap;
  query_get = λ k q. drop 7 q;
}

read_back : (b : Bool) → (of_bool b == 1) ≡ b
read_back true = refl
read_back false = refl

wire_laws : WireLaws wire
unfolding wire
wire_laws = record {
  decode-encode = λ a url error.
      rw (read_back a.ok, take-length-append a.url a.error, drop-length-append a.url a.error) refl;
  query_get-hex = λ t hex. refl;
}

bare : IsBare (codes "xapp-1")
unfolding drop_first drop_last
bare = record { given = λ e. cc; starts = refl; ends = refl }

paths_differ : server.settings.wss_path ≢ path_connections_open
unfolding bytes_beq
paths_differ e =
    let same : false ≡ true = (eq_iff server.settings.wss_path path_connections_open).1 e in cc

known :
    identify asked (request_of (codes "10.0.0.1:4711") (open_call dialer (codes "xapp-1")))
    ≡ located echo
unfolding identify request_of open_call lookup bytes_beq trim_space drop_first locate_with_retry
known = refl

open_connection-stand_in_example :
    (open_connection (stand_in wire asked (codes "10.0.0.1:4711") server dialer) (codes "xapp-1")
      ≡ done (text socket))
    × (serve_http server.settings (codes "GET") (codes "/ws-poc/socketmode") ≡ to_socket)
    × ((handle_actor_socket 0
          (codes "01ff")
          200
          true
          []
          (granting wire asked (codes "10.0.0.1:4711") server dialer (codes "xapp-1"))).1
        ≡ served echo (attaches 0 ∷ serve 0 [] ++ detaches 0 ∷ []))
unfolding wire wss_url encode_to_string bytes_beq open_call
open_connection-stand_in_example =
    open_connection-stand_in wire asked (codes "10.0.0.1:4711") server dialer (codes "xapp-1") echo
      bootstrap (1 ∷ 255 ∷ []) 0 200 [] wire_laws bare refl refl refl paths_differ (ground arith)
      refl (ground arith) refl known (omega arith)
