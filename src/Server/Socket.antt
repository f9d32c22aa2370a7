-- ===== src/Server/Socket.antt =====
-- `handleActorSocket` and the routing of `ServeHTTP` in cmd/egress-broker/server.go. The handler's
-- calls are listed in its order; other goroutines run between them.
use substrate_ws_poc.Prelude.{
  ℕ, Bool, true, false, not, ◌&&◌, List, [], ◌∷◌, ◌++◌, Option, none, some, if◌then◌else◌, ◌==◌,
}
use substrate_ws_poc.Prelude.Bytes.{Bytes, codes, bytes_eq}
use substrate_ws_poc.Actor.{ActorRef}
use substrate_ws_poc.SocketMode.{Json, Envelope, Result, ok, err, decode_envelope}
use substrate_ws_poc.Registry.{get_or_create}
use substrate_ws_poc.Server.Tickets.{redeem_ticket}
use substrate_ws_poc.Server.Open.{Settings, Server}

-- What `WriteControl` returns for a pong: nil, `ErrCloseSent`, a timeout, or another error.
pub data Pong : Type 0 where
  written close_sent timed_out refused : Pong

-- Whether the ping's handler returns an error, which ends the read loop.
unfoldable pub pong_fails : Pong → Bool
pong_fails written = false
pong_fails close_sent = false
pong_fails timed_out = false
pong_fails refused = true

-- What the actor sends until its connection ends: a message, or a heartbeat ping with the ids for
-- the delivery that it may trigger, and what comes of the pong.
pub data Incoming : Type 0 where
  message : Bytes → Incoming
  heartbeat : (ℕ → Bytes) → Pong → Incoming

-- The calls on the session and the pongs.
pub data Step : Type 0 where
  attaches : ℕ → Step
  marks_ready : (ℕ → Bytes) → ℕ → Step
  pongs : Step
  acks : Bytes → Step
  detaches : ℕ → Step

pub data Served : Type 0 where
  unauthorized : Served
  not_upgraded : Served
  served : ActorRef → List Step → Served

unfoldable pub ack_of : Result Envelope → List Step
ack_of (err e) = []
ack_of (ok e) = if e.envelope_id == [] then [] else acks e.envelope_id ∷ []

module _ ⦃json : Json⦄ (k : ℕ) where
  -- The read loop on the sink `k`.
  unfoldable pub serve : List Incoming → List Step
  unfolding ack_of pong_fails
  serve [] = []
  serve (message text ∷ rest) = ack_of (decode_envelope text) ++ serve rest
  serve (heartbeat ids pong ∷ rest) =
      let later = serve rest in marks_ready ids k ∷ pongs ∷ (if pong_fails pong then [] else later)

  enter : Bool → List Incoming → Server → Option ActorRef → Server × Served
  unfolding serve
  enter upgraded incoming s none = (s, unauthorized)
  enter upgraded incoming s (some ref) = if not upgraded then (s, not_upgraded) else (
    record s { sessions = (get_or_create ref s.sessions).0 },
    served ref (attaches k ∷ serve incoming ++ detaches k ∷ []),
  )

  -- The handler, for a ticket, the time, whether the upgrade succeeds, and what then comes.
  unfoldable pub handle_actor_socket : Bytes → ℕ → Bool → List Incoming → Server → Server × Served
  unfolding enter
  handle_actor_socket ticket now upgraded incoming s =
      let (tickets, ref) = redeem_ticket ticket now s.tickets in
      enter upgraded incoming (record s { tickets = tickets }) ref

pub data Route : Type 0 where
  to_socket to_open to_slack : Route

abbrev pub path_connections_open : Bytes
path_connections_open = codes "/api/apps.connections.open"

-- Which handler `ServeHTTP` calls for a method and a path.
unfoldable pub serve_http : Settings → Bytes → Bytes → Route
serve_http c method path =
    if path == c.wss_path
    then to_socket
    else if method == codes "POST" && path == path_connections_open
    then to_open
    else to_slack
