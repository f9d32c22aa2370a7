-- ===== src/Server/StandIn.antt =====
-- The broker of cmd/egress-broker/server.go in the place of Slack: a client that bootstraps as
-- cmd/egress-broker/realslack.go does is answered, and led to its actor's WebSocket.
use substrate_ws_poc.Prelude.{
  ℕ, ◌+◌, ◌≤◌, true, [], ◌∷◌, ◌++◌, List, some, ◌≡◌, ◌≢◌, refl, ap, ◌∙◌, arith, eq_iff, eq_refl,
  All,
}
use substrate_ws_poc.Prelude.Bytes.{Bytes, codes, bytes_eq, bytes_beq}
use substrate_ws_poc.Prelude.Dict.{lookup}
use substrate_ws_poc.Actor.{ActorRef}
use substrate_ws_poc.SocketMode.{Json}
use substrate_ws_poc.Session.RandIds.{IsHex, AreOctets, encode_to_string, encode_to_string-IsHex}
use substrate_ws_poc.Slack.Dial.{OpenAnswer, Dialer, done, open_call, open_connection, opens}
use substrate_ws_poc.Server.Tokens.{IsBare, bearer_token, authorization, bearer_token-authorization}
use substrate_ws_poc.Server.Tickets.{ticket_life}
use substrate_ws_poc.Server.Locate.{located}
use substrate_ws_poc.Server.Open.{
  Url, Settings, World, OpenRequest, Server, identify, handle_connections_open, wss_url,
}
use substrate_ws_poc.Server.Socket.{
  Incoming, served, attaches, detaches, serve, handle_actor_socket, to_socket, to_open, serve_http,
  path_connections_open,
}
use substrate_ws_poc.Server.Entry.{open-socket}
use substrate_ws_poc.Server.Wire.{
  Wire, WireLaws, IsAscii, request_of, answer_of, open_reply, stand_in,
}

-- The requests of such a client carry its token, and no identity.
request_of-open_call :
    (addr token : Bytes) (d : Dialer)
    → request_of addr (open_call d token)
      ≡ record { authorization = authorization token; actor_header = []; remote_addr = addr }
unfolding request_of open_call authorization lookup bytes_beq
request_of-open_call addr token d = refl

routes_open :
    (c : Settings)
    → c.wss_path ≢ path_connections_open
    → serve_http c (codes "POST") path_connections_open ≡ to_open
unfolding serve_http
routes_open c other = ground (
  arith,
  eq_iff path_connections_open c.wss_path,
  eq_refl path_connections_open,
  eq_refl (codes "POST"),
)

routes_socket : (c : Settings) (method : Bytes) → serve_http c method c.wss_path ≡ to_socket
unfolding serve_http
routes_socket c method = rw (eq_refl c.wss_path) refl

module _ (v : Wire) (w : World) (addr : Bytes) (s : Server) (d : Dialer) (token : Bytes) where
  abbrev pub asking : OpenRequest
  asking = request_of addr (open_call d token)

  -- The answer to an identified caller.
  abbrev pub granting : Server
  granting = (handle_connections_open w asking s).0

  abbrev pub offered : Url
  offered = wss_url s.settings w.ticket

  granted :
      (ref : ActorRef)
      → IsBare token
      → identify w asking ≡ located ref
      → (handle_connections_open w asking s).1
        ≡ record { ok = true; url = some (wss_url s.settings w.ticket); error = [] }
  unfolding handle_connections_open
  granted ref bare known =
      let read : bearer_token asking.authorization ≡ token =
        rw (request_of-open_call addr token d) (bearer_token-authorization token bare) in
      let some_token = bare.given in ground (arith, eq_iff token [])

  -- What comes back on the client's request.
  called :
      (u : Url)
      → v.parse_url (open_call d token).target ≡ some u
      → u.path ≡ path_connections_open
      → s.settings.wss_path ≢ path_connections_open
      → (stand_in v w addr s d).call (open_call d token)
        ≡ some (v.encode (answer_of v (handle_connections_open w asking s).1))
  unfolding stand_in open_reply open_call
  called u parsed path other = rw (parsed, path, routes_open s.settings other) refl

  -- If a client that bootstraps with a token as the broker's own dialer does reaches the broker, which
  -- identifies it, then what it gets is a URL, which leads to the socket's handler with the ticket, and
  -- within two minutes this serves the caller, if the upgrade succeeds. The ticket is the text of random
  -- bytes, the token has no white space at its ends, the URL is ASCII and parses back, and
  -- encoding/json and net/url behave as documented.
  pub open_connection-stand_in :
      ⦃json : Json⦄ (ref : ActorRef) (u : Url) (random : Bytes) (k later : ℕ) (is : List Incoming)
      → WireLaws v
      → IsBare token
      → d.takes (open_call d token).target ≡ true
      → v.parse_url (open_call d token).target ≡ some u
      → u.path ≡ path_connections_open
      → s.settings.wss_path ≢ path_connections_open
      → AreOctets random
      → w.ticket ≡ encode_to_string random
      → IsAscii (v.url_text offered)
      → v.parse_url (v.url_text offered) ≡ some offered
      → identify w asking ≡ located ref
      → later ≤ w.now + ticket_life
      → (open_connection (stand_in v w addr s d) token ≡ done (v.url_text offered))
        × (serve_http s.settings (codes "GET") offered.path ≡ to_socket)
        × ((handle_actor_socket k
              (v.query_get (codes "ticket") offered.raw_query)
              later
              true
              is
              granting).1
            ≡ served ref (attaches k ∷ serve k is ++ detaches k ∷ []))
  unfolding wss_url stand_in open_call answer_of
  open_connection-stand_in ref u random k later is laws bare taken parsed path other bytes hex ascii
        back known soon =
      let answered = granted ref bare known in
      let answer : OpenAnswer = record { ok = true; url = v.url_text offered; error = [] } in
      let read = laws.decode-encode answer ascii tt in
      let good : (handle_connections_open w asking s).1.ok ≡ true = rw answered refl in
      let (who, same, serves) = open-socket w asking s k later is good soon in
      let digits : All IsHex w.ticket = rw hex (encode_to_string-IsHex random bytes) in
      let ticket = laws.query_get-hex w.ticket digits in
      (
        opens (stand_in v w addr s d) token (v.encode answer) answer taken
            (called u parsed path other ∙ ap (λ a. some (v.encode (answer_of v a))) answered) read
            refl (rw back refl),
        routes_socket s.settings (codes "GET"),
        ground arith,
      )
