-- ===== src/Tests/Servers.antt =====
-- Identities, tokens, tickets, and the handlers.
use substrate_ws_poc.Prelude.{
  ℕ, ◌+◌, ◌≤◌, List, [], ◌∷◌, none, some, ◌≡◌, refl, ◌↔◌, ◌⊎◌, true, false, if◌then◌else◌, ltb,
}
use substrate_ws_poc.Prelude.Bytes.{Bytes, codes, bytes_beq, bytes_eq}
use substrate_ws_poc.Prelude.Dict.{lookup, insert, delete}
use substrate_ws_poc.Actor.{ActorRef, to_string, parse_actor_ref, actor_eq}
use substrate_ws_poc.Actor.Parse.{IsNamed, index_byte, contains, parse_actor_ref_iff}
use substrate_ws_poc.Session.State.{done}
use substrate_ws_poc.Server.Tokens.{bearer_token, equal_fold, drop_first, drop_last, trim_space}
use substrate_ws_poc.Server.Tickets.{
  issue_ticket, redeem_ticket, Call, issues, redeems, run_calls, issued, granted, held,
  granted-le-issued,
}
use substrate_ws_poc.Server.Locate.{Outcome, located, failed, locate_with_retry}
use substrate_ws_poc.Server.Open.{Server, World, OpenRequest, identify, handle_connections_open}
use substrate_ws_poc.Server.Admission.{IsGranted, handle_connections_open-IsGranted}

abbrev pub echo : ActorRef
echo = record { atespace = codes "demo"; name = codes "echo-1" }

abbrev pub template : ActorRef
template = record { atespace = codes "ate-golden"; name = codes "echo" }

malformed_refs :
    (parse_actor_ref (codes "/echo") ≡ none)
    × (parse_actor_ref (codes "demo/") ≡ none)
    × (parse_actor_ref (codes "a/b/c") ≡ none)
    × (parse_actor_ref (codes "demo") ≡ none)
unfolding parse_actor_ref index_byte contains
malformed_refs = (refl, refl, refl, refl)

parse_actor_ref_iff_example :
    (parse_actor_ref (codes "demo/echo-1") ≡ some echo)
    ↔ ((codes "demo/echo-1" ≡ to_string echo) × IsNamed echo)
parse_actor_ref_iff_example = parse_actor_ref_iff (codes "demo/echo-1") echo

tokens_read :
    (bearer_token (codes "bearer  xapp-1 ") ≡ codes "xapp-1")
    × (bearer_token (codes "Basic xapp-1") ≡ [])
    × (bearer_token (codes "Bearer ") ≡ [])
unfolding bearer_token drop_first drop_last equal_fold
tokens_read = (refl, refl, refl)

abbrev calls : List Call
calls = issues echo (7 ∷ []) 100 ∷ redeems (7 ∷ []) 200 ∷ redeems (7 ∷ []) 300 ∷ []

granted_once : (run_calls calls []).1 ≡ (7 ∷ [], echo) ∷ []
unfolding run_calls issue_ticket redeem_ticket lookup insert delete bytes_beq
granted_once = refl

granted-le-issued_example :
    granted (7 ∷ []) (run_calls calls []).1 + held (7 ∷ []) (run_calls calls []).0
    ≤ issued (7 ∷ []) calls + held (7 ∷ []) []
granted-le-issued_example = granted-le-issued (7 ∷ []) calls []

-- The locator finds the actor at its third call.
abbrev slow : ℕ → Outcome
slow i = if ltb i 2 then failed (codes "no actor") else located echo

slow_locates : locate_with_retry slow (λ i. false) ≡ located echo
unfolding locate_with_retry
slow_locates = refl

abbrev pub world : World
world = record {
  split_host_port = λ b. none;
  attempt = λ ip. slow;
  is_done = λ i. false;
  now = 100;
  ticket = 7 ∷ [];
}

abbrev pub request : OpenRequest
request = record {
  authorization = codes "Bearer xapp-1";
  actor_header = codes " ate-golden/echo ";
  remote_addr = codes "10.0.0.1:4711";
}

abbrev pub server : Server
server = record {
  settings = record {
    wss_host = codes "wss-primary.slack.com";
    wss_path = codes "/ws-poc/socketmode";
  };
  sessions = [];
  tickets = [];
}

-- A template actor gets a ticket and no session.
golden_runs : (handle_connections_open world request server).0.sessions ≡ []
unfolding handle_connections_open identify parse_actor_ref index_byte contains bearer_token
    trim_space drop_first drop_last equal_fold bytes_beq
golden_runs = refl

handle_connections_open-IsGranted_example :
    let (t, answer, task) = handle_connections_open world request server in
    ((answer.ok ≡ false)
      × (t ≡ server)
      × (task ≡ done)
      × ((bearer_token request.authorization ≡ [])
          ⊎ ((e : Bytes) × (identify world request ≡ failed e))))
    ⊎ ((answer.ok ≡ true) × IsGranted world request server t task)
handle_connections_open-IsGranted_example = handle_connections_open-IsGranted world request server
