-- ===== src/Server/Forward.antt =====
-- `handlePassthrough` of cmd/egress-broker/server.go, as what it does in order. Other goroutines run
-- between the actions.
use substrate_ws_poc.Prelude.{
  ℕ, Bool, not, List, [], ◌∷◌, ◌++◌, Option, none, some, if◌then◌else◌, ◌==◌,
}
use substrate_ws_poc.Prelude.Bytes.{Bytes, codes, bytes_eq}
use substrate_ws_poc.Prelude.Dict.{delete}
use substrate_ws_poc.Actor.{ActorRef, parse_actor_ref}
use substrate_ws_poc.Session.Sections.{Section, begins_forward, ends_forward}
use substrate_ws_poc.Registry.{Sessions}
use substrate_ws_poc.Registry
use substrate_ws_poc.Server.Tokens.{trim_space}
use substrate_ws_poc.Server.Headers.{Headers, get, copy_header}

pub record Call : Type 0 where
  pub method : Bytes
  pub path : Bytes
  pub raw_query : Bytes
  pub headers : Headers
  pub body : Bytes

-- The request to Slack.
pub record OutCall : Type 0 where
  pub method : Bytes
  pub target : Bytes
  pub headers : Headers
  pub body : Bytes

pub record Reply : Type 0 where
  pub status : ℕ
  pub headers : Headers
  pub body : Bytes

-- What the handler asks of net/http and of Slack: the canonical spelling of a header, whether
-- `NewRequestWithContext` takes the method and the URL, and the answer, if one comes.
pub record Gateway : Type 0 where
  pub api_base_url : Bytes
  pub canonical : Bytes → Bytes
  pub takes : Bytes → Bytes → Bool
  pub answer : OutCall → Option Reply

-- A change of the caller's session, the request to Slack, and the reply to the actor.
pub data Action : Type 0 where
  runs : ActorRef → Section → Action
  sends : OutCall → Action
  replies : Reply → Action

abbrev pub accept_encoding : Bytes
accept_encoding = codes "Accept-Encoding"

abbrev pub actor_key : Bytes
actor_key = codes "X-Ate-Actor"

-- `http.Error`, whose own headers are not modelled.
abbrev pub bad_gateway : Reply
bad_gateway = record { status = 502; headers = []; body = codes "bad gateway\n" }

unfoldable pub target : Gateway → Call → Bytes
target g r =
    let base = g.api_base_url ++ r.path in
    if r.raw_query == [] then base else base ++ codes "?" ++ r.raw_query

unfoldable pub out_call : Gateway → Call → OutCall
unfolding target
out_call g r = record {
  method = r.method;
  target = target g r;
  headers = delete accept_encoding (copy_header g.canonical r.headers []);
  body = r.body;
}

connected_as : Sessions → Option ActorRef → Option ActorRef
connected_as m none = none
connected_as m (some ref) = elim (Registry.lookup ref m) [ none ↦ none | some s ↦ some ref ]

-- The caller that has a session.
unfoldable pub caller : Call → Sessions → Option ActorRef
unfolding connected_as
caller r m =
    let h = trim_space (get actor_key r.headers) in
    if h == [] then none else connected_as m (parse_actor_ref h)

relay : Gateway → Option Reply → Reply
relay g none = bad_gateway
relay g (some p) = record {
  status = p.status;
  headers = copy_header g.canonical p.headers [];
  body = p.body;
}

-- The deferred `endForward` comes after the reply.
held : Option ActorRef → List Action → List Action
held none actions = actions
held (some ref) actions = runs ref begins_forward ∷ actions ++ runs ref ends_forward ∷ []

unfoldable pub handle_passthrough : Gateway → Call → Sessions → List Action
unfolding relay held
handle_passthrough g r m =
    if not (g.takes r.method (target g r))
    then replies bad_gateway ∷ []
    else (let out = out_call g r in
        held (caller r m) (sends out ∷ replies (relay g (g.answer out)) ∷ []))
