-- ===== src/Tests/Handlers.antt =====
-- The handlers of the process that make their calls alone: a bootstrap, and a socket with a ticket.
use substrate_ws_poc.Prelude.{true, [], ◌∷◌, none, ◌≡◌, refl, nat_eq}
use substrate_ws_poc.Prelude.Bytes.{Bytes}
use substrate_ws_poc.Prelude.Dict.{lookup}
use substrate_ws_poc.Server.Tickets.{issue_ticket, redeem_ticket}
use substrate_ws_poc.Broker.State.{Service, new_service}
use substrate_ws_poc.Broker.Enters.{Entered, enters-Entered}
use substrate_ws_poc.Tests.Codec.{toy}
use substrate_ws_poc.Tests.Servers.{echo}
use substrate_ws_poc.Tests.Brokers.{config}

-- A ticket was issued at the time 100.
abbrev with_ticket : Service
with_ticket = record new_service { tickets = issue_ticket echo (7 ∷ []) 100 [] }

no_sink : lookup 4 with_ticket.sinks ≡ none
unfolding lookup new_service
no_sink = refl

enters-Entered_example :
    Entered config 4
      (7 ∷ [])
      200
      true
      with_ticket
      (redeem_ticket (7 ∷ []) 200 with_ticket.tickets).1
enters-Entered_example = enters-Entered config 4 (7 ∷ []) 200 true with_ticket no_sink
