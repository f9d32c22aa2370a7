-- ===== src/Tests/Proxy.antt =====
-- The passthrough and the actor's WebSocket.
use substrate_ws_poc.Prelude.{List, [], ◌∷◌, some, ◌≡◌, refl, true}
use substrate_ws_poc.Prelude.Bytes.{codes, bytes_eq, bytes_beq}
use substrate_ws_poc.Prelude.Dict.{lookup}
use substrate_ws_poc.Actor.{parse_actor_ref}
use substrate_ws_poc.Actor.Ref.{actor_beq}
use substrate_ws_poc.Actor.Parse.{index_byte, contains}
use substrate_ws_poc.Session.State.{new_session}
use substrate_ws_poc.Session.Forwards.{balance_all}
use substrate_ws_poc.Registry.{Sessions}
use substrate_ws_poc.Registry
use substrate_ws_poc.Server.Tokens.{trim_space, drop_first, drop_last}
use substrate_ws_poc.Server.Headers.{values, get}
use substrate_ws_poc.Server.Forward.{
  Call, Gateway, actor_key, accept_encoding, caller, handle_passthrough,
}
use substrate_ws_poc.Server.Passing.{regions, balance_all-handle_passthrough}
use substrate_ws_poc.Server.Socket.{Incoming, message, heartbeat, timed_out}
use substrate_ws_poc.Tests.Codec.{toy}
use substrate_ws_poc.Tests.Servers.{echo}

abbrev gateway : Gateway
gateway = record {
  api_base_url = codes "https://slack.com";
  canonical = λ k. k;
  takes = λ method url. true;
  answer = λ out. some (record { status = 200; headers = []; body = [] });
}

abbrev post_message : Call
post_message = record {
  method = codes "POST";
  path = codes "/api/chat.postMessage";
  raw_query = [];
  headers = (actor_key, codes "demo/echo-1" ∷ []) ∷ (accept_encoding, codes "gzip" ∷ []) ∷ [];
  body = codes "hi";
}

abbrev sessions : Sessions
sessions = (echo, new_session echo) ∷ []

post_message-caller : caller post_message sessions ≡ some echo
unfolding caller get values lookup trim_space drop_first drop_last parse_actor_ref index_byte
    contains Registry.lookup bytes_beq actor_beq
post_message-caller = refl

balance_all-handle_passthrough_example :
    balance_all (regions echo (handle_passthrough gateway post_message sessions)) 3 ≡ some 3
balance_all-handle_passthrough_example =
    balance_all-handle_passthrough gateway post_message sessions echo 3

-- A heartbeat, and an acknowledgement of the id [9].
abbrev pub incoming : List Incoming
incoming = heartbeat (λ i. i ∷ []) timed_out ∷ message (1 ∷ 9 ∷ []) ∷ []
