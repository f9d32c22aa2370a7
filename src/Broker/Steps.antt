-- ===== src/Broker/Steps.antt =====
-- One step of the process of cmd/egress-broker: a request that comes, the next call of a handler, or
-- a step of the goroutines of one session. `none` is a step that cannot be taken, or a panic.
use substrate_ws_poc.Prelude.{
  ℕ, Bool, true, false, List, [], ◌∷◌, ◌++◌, Option, none, some, ◌>>=◌, if◌then◌else◌, ◌==◌, nat_eq,
  is_none, ltb, get_elem?, set,
}
use substrate_ws_poc.Prelude.Bytes.{Bytes, bytes_eq}
use substrate_ws_poc.Prelude.Dict.{lookup, insert}
use substrate_ws_poc.Actor.{ActorRef, actor_eq}
use substrate_ws_poc.SocketMode.{Json}
use substrate_ws_poc.Session.State.{Config, Task, run_slack}
use substrate_ws_poc.Session.Ops.{ensure_started}
use substrate_ws_poc.Session.Sections.{starts}
use substrate_ws_poc.Server.Tokens.{bearer_token}
use substrate_ws_poc.Server.Tickets.{Tickets, issue_ticket, redeem_ticket}
use substrate_ws_poc.Server.Locate.{Outcome, located, failed}
use substrate_ws_poc.Server.Open.{World, OpenRequest, golden_atespace, identify}
use substrate_ws_poc.System.State.{System, new_system}
use substrate_ws_poc.System.Steps.{Choice, hears, moves, connects, runs_region}
use substrate_ws_poc.System.Steps
use substrate_ws_poc.Broker.State.{
  Handler, creating, starting, issuing, joining, attaching, returned, Systems, Service, loops_of,
}

pub data Event : Type 0 where
  -- A request for apps.connections.open, up to the identity of its caller.
  opens : World → OpenRequest → Event
  -- A request for the WebSocket: the ticket, the time, whether the upgrade succeeds, and the sink.
  enters : Bytes → ℕ → Bool → ℕ → Event
  -- The next call of the i-th handler; the text of a new ticket and the time, if it issues one.
  handles : ℕ → Bytes → ℕ → Event
  -- A step of the goroutines of an actor's session.
  acts : ActorRef → Steps.Event → Event

with_token : Bytes → Outcome → Option (ActorRef × Bytes)
with_token token (failed e) = none
with_token token (located ref) = some (ref, token)

-- Who the handler of apps.connections.open goes on for; for the others it refuses.
unfoldable pub caller_of : World → OpenRequest → Option (ActorRef × Bytes)
unfolding with_token
caller_of w r =
    let token = bearer_token r.authorization in
    if token == [] then none else with_token token (identify w r)

-- The golden template gets a ticket only.
abbrev pub first_call : ActorRef → Bytes → Handler
first_call ref token = if ref.atespace == golden_atespace then issuing ref else creating ref token

unfoldable pub admit : Option (ActorRef × Bytes) → Service → Service
admit none b = b
admit (some (ref, token)) b = record b {
  handlers = b.handlers ++ first_call ref token ∷ [];
  asked = (ref, token) ∷ b.asked;
}

-- The socket's handler after `redeemTicket`.
unfoldable pub entered : ℕ → Bool → Tickets × Option ActorRef → Service → Service
entered k upgraded (tickets, none) b = record b { tickets = tickets }
entered k upgraded (tickets, some ref) b =
    if upgraded
    then record b {
      tickets = tickets;
      handlers = b.handlers ++ joining ref k ∷ [];
      sinks = (k, ref) ∷ b.sinks;
    }
    else record b { tickets = tickets }

created : ActorRef → Systems → Option System → Systems
created ref m none = insert ref (new_system ref) m
created ref m (some y) = m

-- `GetOrCreate`, which also gives the session that the handler goes on with.
unfoldable pub get_or_create : ActorRef → Systems → Systems
unfolding created
get_or_create ref m = created ref m (lookup ref m)

abbrev pub started_by : ActorRef → Task → List ActorRef → List ActorRef
started_by ref run_slack loops = ref ∷ loops
started_by ref _ loops = loops

-- The steps of a session's goroutines but those that a handler takes for it; Slack's events come only
-- to a read loop.
unfoldable pub is_own : ActorRef → List ActorRef → Steps.Event → Bool
is_own ref loops (connects k) = false
is_own ref loops (runs_region (starts token)) = false
is_own ref loops (moves i (hears raw fresh)) = ltb 0 (loops_of ref loops)
is_own ref loops e = true

module _ ⦃json : Json⦄ (c : Config) where
  -- A step of the goroutines of the actor's session, if it has one.
  unfoldable pub at : ActorRef → Steps.Event → Service → Option Service
  at ref e b = lookup ref b.systems >>= λ y.
      Steps.step c e y >>= λ z. some (record b { systems = insert ref z b.systems })

  -- The handler's next call, and the one after it.
  unfoldable pub call : Handler → Bytes → ℕ → Service → Option (Service × Handler)
  unfolding get_or_create at
  call (creating ref token) t now b =
      some (record b { systems = get_or_create ref b.systems }, starting ref token)
  call (starting ref token) t now b = lookup ref b.systems >>= λ y.
      let task = (ensure_started token y.shared.session).1 in
      at ref (runs_region (starts token)) b >>= λ b'.
      some (record b' { loops = started_by ref task b.loops }, issuing ref)
  call (issuing ref) t now b =
      some (record b { tickets = issue_ticket ref t now b.tickets }, returned)
  call (joining ref k) t now b =
      some (record b { systems = get_or_create ref b.systems }, attaching ref k)
  call (attaching ref k) t now b = at ref (connects k) b >>= λ b'. some (b', returned)
  call returned t now b = none

  unfoldable pub step : Event → Service → Option Service
  step (opens w r) b = some (admit (caller_of w r) b)
  step (enters t now upgraded k) b =
      if is_none (lookup k b.sinks)
      then some (entered k upgraded (redeem_ticket t now b.tickets) b)
      else none
  step (handles i t now) b = get_elem? b.handlers i >>= λ h.
      call h t now b >>= λ (b', h'). some (record b' { handlers = set b.handlers i h' })
  step (acts ref e) b = if is_own ref b.loops e then at ref e b else none

  unfoldable pub run : List Event → Service → Option Service
  run [] b = some b
  run (e ∷ es) b = step e b >>= run es
