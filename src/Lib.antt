-- ===== src/Lib.antt =====
-- Verification of the WebSocket egress broker: a proxy that holds an actor's Slack Socket Mode
-- connection open while the actor is suspended.
--
-- The broker's parts and their files here. An actor bootstraps with apps.connections.open
-- (cmd/egress-broker/server.go), which identifies it, starts the session that the registry keeps for
-- it (cmd/egress-broker/registry.go) and gives it a ticket for its WebSocket. The session's read loop
-- takes events from Slack, acknowledges them and gives them to the session, which buffers them,
-- resumes the actor if it is away, and delivers them until the actor acknowledges them; after a quiet
-- time it suspends the actor.
--   SocketMode  internal/socketmode/protocol.go: the frames (Frames), their decoding and the
--               rewriting of envelope ids in registry.go (Codec; `rewriteEnvelopeID`), with what the
--               code relies on in encoding/json as the record `JsonLaws`.
--   Actor       `ActorRef` of cmd/egress-broker/ateapi.go (Ref), `parseActorRef` of server.go (Parse).
--   Session     `session` of registry.go. State has its fields, Ops one function for each region that
--               runs under the session's mutex, Sections the step that runs one of them. A method
--               that unlocks in between is several functions: its first region returns the `Task` that
--               the goroutine goes on with. Writer is `writeToSink`, RandIds is `randID`. Outbox is the
--               specification: the events received and the keys acknowledged. Refines, Total, Ids,
--               Latch, Idle, Forwards, Numbered, Once, Kept and Drain are about the runs, Texts about
--               what is held and written.
--   System      the goroutines of one session: the handlers of its connections with their reads in
--               server.go, its read loop and the fallback timers, the mutex `sinkWrite` and each call
--               of `WriteFrame` (State, Steps). Refines leads their runs back to those of Session.
--               Hello and Runs are about the hello frame, Mutex and Progress about the mutex, Alone
--               and Delivery about one connection that goes on alone, Order about the order of frames,
--               Texts and Faithful about what the frames say.
--   Registry    `Registry` of registry.go: `Lookup`, `GetOrCreate`, and the start of a session.
--   Server      server.go: `bearerToken` (Tokens), the tickets (Tickets), `locateWithRetry` (Locate),
--               `handleConnectionsOpen` (Open), `handleActorSocket` and `ServeHTTP` (Socket),
--               the keepalive pings (Pings),
--               `copyHeader` (Headers), `handlePassthrough` (Forward). Admission, Entry and Passing
--               are about them. Wire has the bootstrap's answer as it is sent, and StandIn is about a
--               client that takes the broker for Slack.
--   Slack       `runSlack` and `readSlackUntilClose` of registry.go, `gorillaSlackConn.Read` of
--               cmd/egress-broker/realslack.go (Loop; Events, Acks and Backoff are about it), and
--               `Dial` there (Dial).
--   Control     cmd/egress-broker/ateapi.go: `LocateByPodIP` (Pages; Chain is about it), `Resume` and
--               `Suspend` with what `resumeActor` and `onIdle` do on their answers (Resume; Retry is
--               about them).
--   Tls         cmd/egress-broker/tlsmint.go: the certificates minted for a handshake (Minter; Leaves
--               and Loading are about them).
--   Process     `main` of cmd/suspend-helper/main.go (Helper), and of cmd/egress-broker/main.go: the
--               constructors that it calls and the settings of its clients (Parts, Broker), and how
--               it ends (Broker.Ends).
--   Broker      the whole process: the handlers of server.go, the tickets, and the sessions of all
--               actors, each with its goroutines as in System (State, Steps). Separate leads a run
--               of the process back to one of System for each actor, and Kept compares it with the
--               read loop of Slack. Backed, Owned, Presents and Reached are the invariants, Owners,
--               Told and Loops what they are for; Leads, Asks, Wakes, Unlocks and Fetches are about
--               one actor's requests and connection; Opens and Enters about one request whose
--               handler makes its calls alone, which Views compares with the state of Server.
-- Prelude has the shared lists, dictionaries and byte strings; Tests the examples.
--
-- An interleaving of goroutines is a list of locked regions: a theorem for all lists is one for every
-- order in which the goroutines, the timers and the network can come. A timer that fires after it was
-- stopped, and a callback for a connection that is gone, are such regions too.
--
-- Strings are lists of byte values. `nextKey` is a uint64 and wraps at 2^64, `inFlight` an int
-- given by its bit pattern; the theorems that need fewer than 2^64 events or 2^63 forwards say so.
-- Durations are natural numbers of nanoseconds, since the code only asks whether a setting is above
-- 0. `TrimSpace` has as much fuel as the text has bytes, and each round drops one. The locator is
-- asked 20 times, as in the code; the loop over its pages runs on fuel, as the service decides how
-- many there are, and each page takes one unit. Random ids and tickets, the clock and the answers of
-- the network are arguments.
--
-- In System a step is a locked region, the taking or freeing of the mutex of writers, a test of the
-- sink, or a `WriteFrame`, which may fail; a run is a list of steps of any goroutines. A goroutine
-- that one method starts with `go` for a resume, a suspend or the Slack loop is not followed: the
-- regions that it runs later are steps of their own. `MarkReady` is called at the heartbeat of a
-- handler.
--
-- In Broker a step is a request that comes, the next call of a handler, or a step of one session's
-- goroutines. A handler of apps.connections.open goes through `GetOrCreate`, `EnsureStarted` and
-- `issueTicket`, one of a socket through `GetOrCreate` and `Attach`; other handlers and goroutines can
-- come in between. `Service` also keeps two histories: who was identified with which token, and for
-- whom each connection was upgraded. A new connection has a number that no earlier one had.
-- The begin and the end of a passthrough's forward are regions of a session that may come at any time.
--
-- Not modelled: the bodies of the gRPC, HTTP, WebSocket and TLS libraries; the parsing of flags and
-- logs. What `ListenAndServeTLS` returns, and the signal that has the server closed, are arguments. A
-- run of the session's regions also allows orders that the program cannot produce, so a theorem about
-- all runs covers more than the program's.
pub mod Prelude
pub mod SocketMode
pub mod Actor
pub mod Session
pub mod Server
pub mod Registry
pub mod Slack
pub mod Control
pub mod Tls
pub mod System
pub mod Process
pub mod Broker
mod Tests
