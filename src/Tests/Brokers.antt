-- ===== src/Tests/Brokers.antt =====
-- The whole process: an actor bootstraps, connects, and an event comes for it.
use substrate_ws_poc.Prelude.{
  ℕ, ◌+◌, true, false, List, [], ◌∷◌, ◌++◌, Option, some, none, ◌≡◌, ◌≢◌, ◌⊎◌, refl, arith, length,
  nat_eq, ◌≤◌, ◌∙◌, sym, All,
}
use substrate_ws_poc.Prelude.Bytes.{Bytes, codes, bytes_beq, bytes_eq}
use substrate_ws_poc.Prelude.Dict.{lookup, insert, delete}
use substrate_ws_poc.Actor.{parse_actor_ref, actor_eq}
use substrate_ws_poc.Actor.Ref.{actor_beq}
use substrate_ws_poc.Actor.Parse.{index_byte, contains}
use substrate_ws_poc.SocketMode.{
  rewrite_envelope_id, decode_envelope, is_event, is_connection_management,
}
use substrate_ws_poc.Session.State.{Config, new_session}
use substrate_ws_poc.Session.Ops.{
  ensure_started, attach, detach, deliver_buffered, build_event_frames, on_event, note_activity,
}
use substrate_ws_poc.Session.Sections.{exec}
use substrate_ws_poc.Session.Outbox.{elem, outstanding}
use substrate_ws_poc.Session.Runs.{history_after, no_history}
use substrate_ws_poc.Session.Frame.{rewritten_frames}
use substrate_ws_poc.Server.Tokens.{bearer_token, equal_fold, drop_first, drop_last, trim_space}
use substrate_ws_poc.Server.Tickets.{issue_ticket, redeem_ticket}
use substrate_ws_poc.Server.Open.{OpenRequest, golden_atespace, identify}
use substrate_ws_poc.System.State.{new_system}
use substrate_ws_poc.System.Steps.{goes, hears, leaves, moves, move, wait, region}
use substrate_ws_poc.System.Steps
use substrate_ws_poc.System.Refines.{Regions, events_of}
use substrate_ws_poc.Broker.State.{Service, new_service, system_of, loops_of}
use substrate_ws_poc.Broker.Steps.{
  Event, opens, enters, handles, acts, caller_of, admit, entered, get_or_create, is_own, at, call,
  step, run,
}
use substrate_ws_poc.Broker.Separate.{heard_for, Ran, run-separate}
use substrate_ws_poc.Slack.Loop.{
  Round, connected, second, read, handle_frame, read_until_close, run_slack,
}
use substrate_ws_poc.Slack.Acks.{acked_to_slack, handed}
use substrate_ws_poc.Session.Kept.{IsReceived}
use substrate_ws_poc.Broker.Kept.{confirmations_of, run_kept}
use substrate_ws_poc.Broker.Presents.{Presents}
use substrate_ws_poc.Broker.Owners.{run-owners}
use substrate_ws_poc.Broker.Loops.{run-loops}
use substrate_ws_poc.Tests.Codec.{toy}
use substrate_ws_poc.Tests.Frames.{first_event}
use substrate_ws_poc.Tests.Servers.{echo, world, request}

abbrev pub config : Config
config = record { deliver_delay = 0; idle_grace = 5; hello_frame = 0 ∷ [] }

abbrev pub ids : ℕ → Bytes
ids i = (i + 100) ∷ []

abbrev pub echo_request : OpenRequest
echo_request = record request { actor_header = codes "demo/echo-1" }

-- The actor gets its ticket, its session and its connection, and is given the hello; the template
-- asks too.
abbrev pub joined : List Event
joined =
    opens world echo_request
    ∷ handles 0 [] 0
    ∷ handles 0 [] 0
    ∷ handles 0 (7 ∷ []) 100
    ∷ enters (7 ∷ []) 200 true 4
    ∷ handles 1 [] 0
    ∷ handles 1 [] 0
    ∷ opens world request
    ∷ acts echo (moves 1 (goes ids))
    ∷ acts echo (moves 1 (goes ids))
    ∷ acts echo (moves 1 (goes ids))
    ∷ acts echo (moves 1 (goes ids))
    ∷ acts echo (moves 1 (goes ids))
    ∷ acts echo (moves 1 (goes ids))
    ∷ acts echo (moves 1 (goes ids))
    ∷ acts echo (moves 1 (goes ids))
    ∷ []

-- Then the connection ends, and an event comes.
abbrev life : List Event
life = joined ++ acts echo (moves 1 leaves) ∷ acts echo (moves 0 (hears first_event [])) ∷ []

abbrev pub or_start : Option Service → Service
or_start none = new_service
or_start (some b) = b

reached : Service
reached = or_start (run config life new_service)

-- The connection was given the hello, it has ended, and the event waits for the actor.
life_facts :
    (run config life new_service ≡ some reached)
    × ((system_of echo reached.systems).shared.log
        ≡ record { sink = 4; frame = 0 ∷ []; written = true } ∷ [])
    × (loops_of echo reached.loops ≡ 1)
unfolding reached run step call at caller_of admit entered get_or_create is_own loops_of new_service
    Steps.step move wait region exec new_system new_session ensure_started on_event attach
    deliver_buffered build_event_frames note_activity rewrite_envelope_id toy lookup insert delete
    bytes_beq actor_beq elem identify parse_actor_ref index_byte contains bearer_token trim_space
    drop_first drop_last equal_fold issue_ticket redeem_ticket detach system_of rewritten_frames
life_facts = (refl, refl, refl)

life_runs : run config life new_service ≡ some reached
life_runs = life_facts.0

run-separate_example :
    Ran config (new_system echo) (system_of echo reached.systems) (heard_for echo life)
    × (r : Regions config
        (new_session echo)
        (system_of echo reached.systems).shared.session
        (heard_for echo life))
    × ((system_of echo reached.systems).shared.session.buffer
        ≡ outstanding (history_after config r.secs (new_session echo) no_history))
unfolding heard_for events_of actor_beq bytes_beq
run-separate_example = run-separate config echo life reached life_runs (omega arith)

-- A connection on which the event comes, and then no more.
abbrev pub rounds : List Round
rounds =
    connected (codes "xapp-1") false true (record { stopped = false; text = some first_event } ∷ [])
    ∷ []

loop_facts :
    (handed (run_slack second rounds) ≡ first_event ∷ [])
    × (length (acked_to_slack (run_slack second rounds)) ≡ 1)
    × (events_of (heard_for echo life) ≡ first_event ∷ [])
    × (confirmations_of (heard_for echo life) ≡ [])
unfolding handed acked_to_slack run_slack read_until_close read handle_frame decode_envelope toy
    is_event is_connection_management bytes_beq heard_for events_of confirmations_of actor_beq
loop_facts = (refl, refl, refl, refl)

run_kept_example :
    All
      (IsReceived (handed (run_slack second rounds)))
      (system_of echo reached.systems).shared.session.buffer
    × (length (acked_to_slack (run_slack second rounds))
        ≤ length (system_of echo reached.systems).shared.session.buffer
          + length (confirmations_of (heard_for echo life)))
run_kept_example =
    run_kept config echo life reached second rounds life_runs (loop_facts.2 ∙ sym loop_facts.0)
      (rw loop_facts.0 (omega arith))

run-owners_example :
    (lookup 4 reached.sinks ≡ some echo) × (token : Bytes) × Presents echo token life
run-owners_example =
    run-owners config echo life reached 0 (record { sink = 4; frame = 0 ∷ []; written = true })
      life_runs (rw life_facts.1 refl)

run-loops_example :
    (loops_of echo reached.loops ≡ 0)
    ⊎ ((loops_of echo reached.loops ≡ 1)
        × (echo.atespace ≢ golden_atespace)
        × ((system_of echo reached.systems).shared.session.app_token ≢ [])
        × Presents echo (system_of echo reached.systems).shared.session.app_token life)
run-loops_example = run-loops config echo life reached life_runs

pub echo_asks : caller_of world echo_request ≡ some (echo, codes "xapp-1")
unfolding caller_of identify parse_actor_ref index_byte contains bearer_token trim_space drop_first
    drop_last equal_fold bytes_beq
echo_asks = refl

pub echo_is_real : echo.atespace ≢ golden_atespace
echo_is_real same = cc
