-- ===== src/Broker/Opens.antt =====
-- What a request for apps.connections.open brings about in the process: the calls of
-- `handleConnectionsOpen` of cmd/egress-broker/server.go one by one.
use substrate_ws_poc.Prelude.{
  ℕ, false, List, [], ◌∷◌, ◌++◌, Option, none, some, ◌≡◌, ◌==◌, length, replicate, set,
}
use substrate_ws_poc.Prelude.Bytes.{Bytes, bytes_eq}
use substrate_ws_poc.Prelude.Dict.{insert}
use substrate_ws_poc.Actor.{ActorRef, actor_eq}
use substrate_ws_poc.SocketMode.{Json}
use substrate_ws_poc.Session.State.{Config, Task}
use substrate_ws_poc.Session.Ops.{ensure_started}
use substrate_ws_poc.Registry.{Sessions}
use substrate_ws_poc.Registry
use substrate_ws_poc.Server.Tokens.{bearer_token}
use substrate_ws_poc.Server.Locate.{located}
use substrate_ws_poc.Server.Open.{Settings, World, OpenRequest, identify, handle_connections_open}
use substrate_ws_poc.System.State.{System}
use substrate_ws_poc.System.Steps.{with_session}
use substrate_ws_poc.System.Steps
use substrate_ws_poc.Server.Tickets.{issue_ticket}
use substrate_ws_poc.Broker.State.{
  Handler, creating, starting, issuing, returned, Service, system_of,
}
use substrate_ws_poc.Broker.Steps.{
  Event, opens, handles, caller_of, first_call, get_or_create, started_by, run,
}
use substrate_ws_poc.Broker.Views.{calls_left, server_of}

-- The calls that a handler of apps.connections.open makes for its caller, each right after the other.
abbrev pub handled : ℕ → World → Option (ActorRef × Bytes) → List Event
handled i w none = []
handled i w (some (ref, token)) =
    replicate (calls_left (first_call ref token)) (handles i w.ticket w.now)

-- The read loops once the handler has run the task.
abbrev pub loops_after : Option (ActorRef × Bytes) → Task → List ActorRef → List ActorRef
loops_after none task loops = loops
loops_after (some (ref, token)) task loops = started_by ref task loops

module _ ⦃json : Json⦄ (c : Config) (settings : Settings) (w : World) (r : OpenRequest)
    (b : Service) where
  abbrev first : ℕ
  first = length b.handlers

  -- The request comes, and these calls are made for it.
  record HandledFor (who : Option (ActorRef × Bytes)) : Type 0 where
    pub last : Service
    pub runs : run c (opens w r ∷ handled first w who) b ≡ some last
    pub server : server_of settings last ≡ (handle_connections_open w r (server_of settings b)).0
    pub loops :
        last.loops ≡ loops_after who (handle_connections_open w r (server_of settings b)).2 b.loops

  module _ (ref : ActorRef) (some_token : (bearer_token r.authorization == []) ≡ false)
      (here : identify w r ≡ located ref)
      (who : caller_of w r ≡ some (ref, bearer_token r.authorization)) where
    abbrev token : Bytes
    token = bearer_token r.authorization

    -- The caller's first call is next.
    abbrev opened : Handler → Service
    opened h = record b { handlers = b.handlers ++ h ∷ []; asked = (ref, token) ∷ b.asked }

    -- The ticket is issued, and the handler has made its calls.
    abbrev issued : Service → Service
    issued m = record m {
      tickets = issue_ticket ref w.ticket w.now m.tickets;
      handlers = set m.handlers first returned;
    }

    abbrev before : System
    before = system_of ref b.systems

    abbrev after : System
    after = record before {
      shared = with_session before.shared (ensure_started token before.shared.session).0;
    }

    abbrev created : Service
    created = record (opened (creating ref token)) {
      systems = get_or_create ref b.systems;
      handlers = set (opened (creating ref token)).handlers first (starting ref token);
    }

    abbrev started : Service
    started = record created {
      systems = insert ref after created.systems;
      loops = started_by ref (ensure_started token before.shared.session).1 b.loops;
      handlers = set created.handlers first (issuing ref);
    }
