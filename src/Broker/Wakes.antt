-- ===== src/Broker/Wakes.antt =====
-- What an actor that comes back to cmd/egress-broker gets: the handlers of server.go and the session
-- of registry.go together.
use substrate_ws_poc.Prelude.{
  ℕ, false, List, ◌∷◌, [], none, some, ◌≡◌, ◌≢◌, refl, ◌∙◌, arith, nat_eq, length, Bool-cases, inl,
  inr,
}
use substrate_ws_poc.Prelude.Bytes.{Bytes}
use substrate_ws_poc.Prelude.Dict.{lookup, insert, lookup-insert_self}
use substrate_ws_poc.Actor.{ActorRef, actor_eq}
use substrate_ws_poc.SocketMode.{Json}
use substrate_ws_poc.Session.State.{Config}
use substrate_ws_poc.Session.Outbox.{elem}
use substrate_ws_poc.Session.Frame.{rewritten_frames}
use substrate_ws_poc.Server.Open.{World, OpenRequest, golden_atespace}
use substrate_ws_poc.System.Delivery.{Delivered, connects-Delivered}
use substrate_ws_poc.Broker.State.{joining, attaching, returned, Service, new_service, system_of}
use substrate_ws_poc.Broker.Steps.{Event, caller_of, get_or_create, call, run}
use substrate_ws_poc.Broker.Moves.{system_of-lookup}
use substrate_ws_poc.Broker.Backed.{is_sink-lookup}
use substrate_ws_poc.Broker.Reached.{run_new-IsOwned}
use substrate_ws_poc.Broker.Leads.{lookup-get_or_create, Leads, call_attaching, next, follows-Alone}
use substrate_ws_poc.Broker.Asks.{
  ensure_started-buffer, given, asked-Stage, started-Stage, entered-Stage,
}

module _ ⦃json : Json⦄ (c : Config) (ref : ActorRef) (k : ℕ) where
  -- The connection is new to the actor's session.
  pub unattached :
      (es : List Event) (b : Service)
      → run c es new_service ≡ some b
      → lookup k b.sinks ≡ none
      → elem k (system_of ref b.systems).shared.attached ≡ false
  unattached es b h fresh = elim (Bool-cases (elem k (system_of ref b.systems).shared.attached)) [
    | inr new ↦ new
    | inl old ↦
        let (backed, owned) = run_new-IsOwned c es b h in
        let mine = is_sink-lookup ref k b.sinks (owned.attached ref k old) in absurd (ground arith)
  ]

  -- In every state that the process reaches from its start: if an actor that is not the golden
  -- template asks for a connection, its mutex of writers is free and its buffered events are
  -- rewritten, then steps of its own requests and of its new connection alone, of which no write
  -- fails, lead to a state in which this connection has been given the hello and then the whole
  -- buffer in order, is settled, and every event is kept.
  pub wakes-Delivered :
      (token : Bytes) (es : List Event) (b : Service) (w : World) (r : OpenRequest)
      (ids : ℕ → Bytes) (frames : List Bytes)
      → run c es new_service ≡ some b
      → caller_of w r ≡ some (ref, token)
      → ref.atespace ≢ golden_atespace
      → lookup k b.sinks ≡ none
      → (system_of ref b.systems).shared.locked ≡ false
      → rewritten_frames ids 0 (system_of ref b.systems).shared.session.buffer ≡ some frames
      → (b' : Service) × Leads c ref (length b.handlers) k b b'
        × Delivered c k frames (system_of ref b.systems) (system_of ref b'.systems)
  unfolding call
  wakes-Delivered token es b w r ids frames h who real fresh free built =
      let n = length b.handlers in
      let y = given c ref token k b in
      let sinks = (k, ref) ∷ b.sinks in
      let same = ensure_started-buffer token (system_of ref b.systems).shared.session in
      let (m, z, connected, alone, d) =
        connects-Delivered c k ids y frames (unattached es b h fresh) free (rw same built) in
      let (i, joins) =
        entered-Stage c ref token k b [] 0 0 (omega arith) fresh
          (started-Stage c ref token k b (asked-Stage c ref token k b w r who real)) in
      let b1 = record joins.last { systems = get_or_create ref joins.last.systems } in
      let attaches =
        next c ref n k b sinks i (joining ref k) y joins [] 0 b1 (attaching ref k) y refl
          (rw (lookup-get_or_create ref joins.last.systems)
            (rw (system_of-lookup ref joins.last.systems y joins.known) refl))
          refl in
      let b2 = record attaches.last { systems = insert ref m attaches.last.systems } in
      let served =
        next c ref n k b sinks i (attaching ref k) y attaches [] 0 b2 returned m
          (call_attaching c ref n k [] 0 attaches.last y m attaches.known connected)
          (lookup-insert_self ref m attaches.last.systems) refl in
      let (b', leads, known) =
        follows-Alone c ref n k b served.last (length y.threads) ids m z served.leads served.known
          alone in
      (
        b',
        leads,
        rw (system_of-lookup ref b'.systems z known)
            (record { given = d.given; settled = d.settled; kept = d.kept ∙ same; free = d.free }),
      )
