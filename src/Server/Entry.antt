-- ===== src/Server/Entry.antt =====
-- What `handleActorSocket` and `ServeHTTP` of cmd/egress-broker/server.go promise.
use substrate_ws_poc.Prelude.{
  ℕ, ◌+◌, ◌≤◌, Bool, true, List, [], ◌∷◌, ◌++◌, none, ◌≡◌, ◌≢◌, ◌↔◌, ◌⊎◌, arith, eq_iff, eq_refl,
  inl, inr, All, All-append,
}
use substrate_ws_poc.Prelude.Bytes.{Bytes, codes, bytes_eq}
use substrate_ws_poc.Prelude.Dict.{lookup}
use substrate_ws_poc.Actor.{ActorRef}
use substrate_ws_poc.SocketMode.{Json, Envelope, Result, ok, err, decode_envelope}
use substrate_ws_poc.Server.Tickets.{ticket_life, redeem_ticket, redeem-lookup}
use substrate_ws_poc.Server.Locate.{located}
use substrate_ws_poc.Server.Open.{
  Settings, Server, World, OpenRequest, identify, handle_connections_open,
}
use substrate_ws_poc.Server.Admission.{handle_connections_open-IsGranted}
use substrate_ws_poc.Server.Socket.{
  Incoming, message, heartbeat, refused, Step, attaches, acks, detaches, unauthorized, served,
  ack_of, serve, handle_actor_socket, to_slack, path_connections_open, serve_http,
}

-- A request goes to Slack exactly when it is neither the socket's path nor a POST that bootstraps.
pub serve_http_iff :
    (c : Settings) (method path : Bytes)
    → (serve_http c method path ≡ to_slack)
      ↔ ((path ≢ c.wss_path) × ((method ≢ codes "POST") ⊎ (path ≢ path_connections_open)))
unfolding serve_http
serve_http_iff c method path =
    ground (
      arith,
      eq_iff path c.wss_path,
      eq_iff method (codes "POST"),
      eq_iff path path_connections_open,
    )

module _ ⦃json : Json⦄ where
  redeem_again :
      (t : Bytes) (now later : ℕ) (s : Server)
      → (redeem_ticket t later (redeem_ticket t now s.tickets).0).1 ≡ none
  unfolding redeem_ticket
  redeem_again t now later s =
      let gone : lookup t (redeem_ticket t now s.tickets).0 ≡ none = rw (redeem-lookup, eq_refl) in
      rw (redeem_ticket, gone)

  -- A ticket opens one connection: whatever came of the first call with it, the next is refused.
  socket_once :
      (k j : ℕ) (t : Bytes) (now later : ℕ) (up up' : Bool) (is is' : List Incoming) (s : Server)
      → (handle_actor_socket j t later up' is' (handle_actor_socket k t now up is s).0).1
        ≡ unauthorized
  unfolding handle_actor_socket
  socket_once k j t now later up up' is is' s = ground (arith, redeem_again t now later s)

  -- A call inside the connection: no attach and no detach, and no ack without an id.
  abbrev IsInner : Step → Type 0
  IsInner (attaches k) = ⊥
  IsInner (detaches k) = ⊥
  IsInner (acks id) = id ≢ []
  IsInner _ = Unit

  ack_of-IsInner : (r : Result Envelope) → All IsInner (ack_of r)
  unfolding ack_of
  ack_of-IsInner (err e) = tt
  ack_of-IsInner (ok e) = ground (arith, eq_iff e.envelope_id [])

  serve-IsInner : (k : ℕ) (is : List Incoming) → All IsInner (serve k is)
  unfolding serve
  serve-IsInner k [] = tt
  serve-IsInner k (message text ∷ rest) =
      All-append IsInner (ack_of (decode_envelope text)) (serve k rest)
        (ack_of-IsInner (decode_envelope text)) (serve-IsInner k rest)
  serve-IsInner k (heartbeat ids refused ∷ rest) = (tt, (tt, tt))
  serve-IsInner k (heartbeat ids _ ∷ rest) = (tt, (tt, serve-IsInner k rest))

  -- The handler of a connection that is served attaches its sink before anything else and detaches
  -- it at the end; in between it neither attaches nor detaches, and acknowledges no empty id.
  socket_bracket :
      (k : ℕ) (t : Bytes) (now : ℕ) (up : Bool) (is : List Incoming) (s : Server) (ref : ActorRef)
      (steps : List Step)
      → (handle_actor_socket k t now up is s).1 ≡ served ref steps
      → (inner : List Step) × (steps ≡ attaches k ∷ inner ++ detaches k ∷ []) × All IsInner inner
  unfolding handle_actor_socket
  socket_bracket k t now up is s ref steps e = (serve k is, ground arith, serve-IsInner k is)

  -- If the bootstrap answers with a ticket, then within two minutes the socket's handler, with that
  -- ticket and an upgrade that succeeds, serves the actor that was identified.
  pub open-socket :
      (w : World) (r : OpenRequest) (s : Server) (k later : ℕ) (is : List Incoming)
      → (handle_connections_open w r s).1.ok ≡ true
      → later ≤ w.now + ticket_life
      → (ref : ActorRef) × (identify w r ≡ located ref)
        × ((handle_actor_socket k w.ticket later true is (handle_connections_open w r s).0).1
            ≡ served ref (attaches k ∷ serve k is ++ detaches k ∷ []))
  unfolding handle_actor_socket
  open-socket w r s k later is good soon = elim (handle_connections_open-IsGranted w r s) [
    | inl (bad, same, nothing, why) ↦ cc
    | inr (answered, given) ↦
        let now = given.ticket later soon in (given.ref, given.identified, rw (now))
  ]
