-- ===== src/Broker/State.antt =====
-- What the handlers of cmd/egress-broker/server.go share, and where each of them stands.
use substrate_ws_poc.Prelude.{ℕ, ◌+◌, List, [], ◌∷◌, Option, none, some, ◌==◌, if◌then◌else◌}
use substrate_ws_poc.Prelude.Bytes.{Bytes}
use substrate_ws_poc.Prelude.Dict.{lookup}
use substrate_ws_poc.Actor.{ActorRef, actor_eq}
use substrate_ws_poc.Server.Tickets.{Tickets}
use substrate_ws_poc.System.State.{System, new_system}

-- The next call of a handler: of `handleConnectionsOpen` once it knows its caller, with the token, or
-- of `handleActorSocket` once it has upgraded the connection. `returned` is past the last of them.
pub data Handler : Type 0 where
  creating : ActorRef → Bytes → Handler  -- `GetOrCreate(ref)`
  starting : ActorRef → Bytes → Handler  -- `EnsureStarted(token)`
  issuing : ActorRef → Handler  -- `issueTicket(ref)`
  joining : ActorRef → ℕ → Handler  -- `GetOrCreate(ref)`
  attaching : ActorRef → ℕ → Handler  -- `Attach(sink)`
  returned : Handler

-- `Registry.sessions`, each session with its goroutines.
abbrev pub Systems : Type 0
Systems = List (ActorRef × System)

-- `loops` has the actor of each goroutine `runSlack`. The last two are histories, latest first: the
-- callers of
-- apps.connections.open that were identified, with their tokens, and the connections that were
-- upgraded, with their actors.
pub record Service : Type 0 where
  pub systems : Systems
  pub tickets : Tickets
  pub handlers : List Handler
  pub loops : List ActorRef
  pub asked : List (ActorRef × Bytes)
  pub sinks : List (ℕ × ActorRef)

-- `NewRegistry` and `NewServer`, with no request yet.
unfoldable pub new_service : Service
new_service = record {
  systems = [];
  tickets = [];
  handlers = [];
  loops = [];
  asked = [];
  sinks = [];
}

-- An actor with no session yet is seen as one with a new session, which `GetOrCreate` would make.
or_new : ActorRef → Option System → System
or_new ref none = new_system ref
or_new ref (some y) = y

unfoldable pub system_of : ActorRef → Systems → System
unfolding or_new
system_of ref m = or_new ref (lookup ref m)

-- How many read loops an actor has.
unfoldable pub loops_of : ActorRef → List ActorRef → ℕ
loops_of ref [] = 0
loops_of ref (a ∷ as') = (if a == ref then 1 else 0) + loops_of ref as'
