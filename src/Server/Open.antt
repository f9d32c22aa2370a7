-- ===== src/Server/Open.antt =====
-- `handleConnectionsOpen` of cmd/egress-broker/server.go: the synthesized apps.connections.open.
use substrate_ws_poc.Prelude.{
  ℕ, Bool, true, false, [], ◌++◌, Option, none, some, if◌then◌else◌, ◌==◌, not,
}
use substrate_ws_poc.Prelude.Bytes.{Bytes, codes, bytes_eq}
use substrate_ws_poc.Actor.{ActorRef, parse_actor_ref}
use substrate_ws_poc.Session.State.{Task, done}
use substrate_ws_poc.Registry.{Sessions}
use substrate_ws_poc.Registry
use substrate_ws_poc.Server.Tokens.{bearer_token, trim_space}
use substrate_ws_poc.Server.Tickets.{Tickets, issue_ticket}
use substrate_ws_poc.Server.Locate.{Outcome, located, failed, locate_with_retry}

-- The settings of `Server`.
pub record Settings : Type 0 where
  pub wss_host : Bytes
  pub wss_path : Bytes

pub record Server : Type 0 where
  pub settings : Settings
  pub sessions : Sessions
  pub tickets : Tickets

-- `slackapi.ConnectionsOpenResponse`, with the URL before `String()`.
pub record Url : Type 0 where
  pub scheme : Bytes
  pub host : Bytes
  pub path : Bytes
  pub raw_query : Bytes

pub record ConnectionsOpenResponse : Type 0 where
  pub ok : Bool
  pub url : Option Url
  pub error : Bytes

-- What the handler reads of the request, and what it asks of others: the locator's answers for an
-- address, the clock, and the random ticket.
pub record OpenRequest : Type 0 where
  pub authorization : Bytes
  pub actor_header : Bytes
  pub remote_addr : Bytes

pub record World : Type 0 where
  pub split_host_port : Bytes → Option Bytes
  pub attempt : Bytes → ℕ → Outcome
  pub is_done : ℕ → Bool
  pub now : ℕ
  pub ticket : Bytes

abbrev pub golden_atespace : Bytes
golden_atespace = codes "ate-golden"

pub remote_ip : World → Bytes → Bytes
remote_ip w addr = elim (w.split_host_port addr) [ none ↦ addr | some host ↦ host ]

-- The header first, then the address.
unfoldable pub identify : World → OpenRequest → Outcome
unfolding remote_ip
identify w r =
    let h = trim_space r.actor_header in
    let by_ip = locate_with_retry (w.attempt (remote_ip w r.remote_addr)) w.is_done in
    if not (h == [])
    then (elim (parse_actor_ref h) [ some ref ↦ located ref | none ↦ by_ip ])
    else by_ip

refusal : Bytes → ConnectionsOpenResponse
refusal e = record { ok = false; url = none; error = e }

unfoldable pub wss_url : Settings → Bytes → Url
wss_url c t = record {
  scheme = codes "wss";
  host = c.wss_host;
  path = c.wss_path;
  raw_query = codes "ticket=" ++ t;
}

-- The ticket and the answer for an identified actor.
admit : World → ActorRef → Server → Server × ConnectionsOpenResponse
unfolding wss_url
admit w ref s = (
  record s { tickets = issue_ticket ref w.ticket w.now s.tickets },
  record { ok = true; url = some (wss_url s.settings w.ticket); error = [] },
)

open_as : World → Bytes → Outcome → Server → Server × ConnectionsOpenResponse × Task
unfolding admit refusal
open_as w token (failed e) s = (s, refusal (codes "ws-poc_actor_not_identified"), done)
open_as w token (located ref) s =
    if ref.atespace == golden_atespace
    then (let (t, answer) = admit w ref s in (t, answer, done))
    else (let (sessions, task) = Registry.start ref token s.sessions in
        let (t, answer) = admit w ref (record s { sessions = sessions }) in (t, answer, task))

-- `handleConnectionsOpen`; the task is the read loop that it may start.
unfoldable pub handle_connections_open :
    World → OpenRequest → Server → Server × ConnectionsOpenResponse × Task
unfolding open_as
handle_connections_open w r s =
    let token = bearer_token r.authorization in
    if token == []
    then (s, refusal (codes "not_authed"), done)
    else open_as w token (identify w r) s
