-- ===== src/Tests/Told.antt =====
-- An event that comes for an actor that is connected: its frame, and another connection while it is
-- written.
use substrate_ws_poc.Prelude.{
  true, List, [], ◌∷◌, ◌++◌, some, ◌≡◌, refl, nat_eq, get_elem?, length, none,
}
use substrate_ws_poc.Prelude.Bytes.{Bytes, bytes_beq, bytes_eq, codes}
use substrate_ws_poc.Prelude.Dict.{lookup, insert, delete}
use substrate_ws_poc.Actor.{parse_actor_ref, actor_eq}
use substrate_ws_poc.Actor.Ref.{actor_beq}
use substrate_ws_poc.Actor.Parse.{index_byte, contains}
use substrate_ws_poc.SocketMode.{
  rewrite_envelope_id, decode_envelope, is_event, is_connection_management,
}
use substrate_ws_poc.Session.State.{new_session}
use substrate_ws_poc.Session.Ops.{
  ensure_started, attach, detach, deliver_buffered, build_event_frames, on_event, note_activity,
}
use substrate_ws_poc.Session.Sections.{exec}
use substrate_ws_poc.Session.Outbox.{elem}
use substrate_ws_poc.Session.Frame.{rewritten_frames}
use substrate_ws_poc.Server.Tokens.{bearer_token, equal_fold, drop_first, drop_last, trim_space}
use substrate_ws_poc.Server.Tickets.{issue_ticket, redeem_ticket}
use substrate_ws_poc.Server.Open.{identify}
use substrate_ws_poc.System.State.{new_system}
use substrate_ws_poc.System.Steps.{goes, hears, leaves, moves, move, wait, region}
use substrate_ws_poc.System.Steps
use substrate_ws_poc.Broker.State.{Service, new_service, system_of, loops_of}
use substrate_ws_poc.Broker.Steps.{
  Event, acts, caller_of, admit, entered, get_or_create, is_own, at, call, step, run,
}
use substrate_ws_poc.Slack.Loop.{second, run_slack, read_until_close, read, handle_frame}
use substrate_ws_poc.Session.Total.{AreRewritten}
use substrate_ws_poc.Broker.Leads.{Leads}
use substrate_ws_poc.System.Delivery.{Delivered}
use substrate_ws_poc.Broker.Fetches.{wakes-AreRewritten}
use substrate_ws_poc.System.Refines.{events_of}
use substrate_ws_poc.Broker.Separate.{heard_for}
use substrate_ws_poc.Slack.Acks.{handed}
use substrate_ws_poc.Tests.Codec.{toy, toy_laws}
use substrate_ws_poc.Tests.Frames.{first_event}
use substrate_ws_poc.Tests.Servers.{echo, world}
use substrate_ws_poc.Session.Texts.{IsFrameOf}
use substrate_ws_poc.System.State.{Write}
use substrate_ws_poc.Broker.Told.{CameFor, run-told}
use substrate_ws_poc.Tests.Brokers.{
  config, ids, joined, or_start, rounds, echo_asks, echo_is_real, echo_request,
}

-- The read loop gets the event, and writes its frame under the id 9.
abbrev told : List Event
told =
    joined
    ++ acts echo (moves 0 (hears first_event (9 ∷ [])))
      ∷ acts echo (moves 0 (goes ids))
      ∷ acts echo (moves 0 (goes ids))
      ∷ acts echo (moves 0 (goes ids))
      ∷ []

abbrev event_write : Write
event_write = record { sink = 4; frame = 1 ∷ 9 ∷ []; written = true }

told_end : Service
told_end = or_start (run config told new_service)

told_facts :
    (run config told new_service ≡ some told_end)
    × (get_elem? (system_of echo told_end.systems).shared.log 0 ≡ some event_write)
    × (lookup 4 told_end.sinks ≡ some echo)
unfolding told_end run step call at caller_of admit entered get_or_create is_own loops_of
    new_service Steps.step move wait region exec new_system new_session ensure_started on_event
    attach deliver_buffered build_event_frames note_activity rewrite_envelope_id toy lookup insert
    delete bytes_beq actor_beq elem identify parse_actor_ref index_byte contains bearer_token
    trim_space drop_first drop_last equal_fold issue_ticket redeem_ticket detach system_of
    rewritten_frames
told_facts = (refl, refl, refl)

run-told_example : IsFrameOf config.hello_frame (CameFor echo told) event_write.frame
run-told_example =
    run-told config echo echo told told_end 0 event_write told_facts.0 told_facts.1 told_facts.2

-- The read loop has the event and holds the mutex.
abbrev held : List Event
held =
    joined ++ acts echo (moves 0 (hears first_event (9 ∷ []))) ∷ acts echo (moves 0 (goes ids)) ∷ []

held_end : Service
held_end = or_start (run config held new_service)

held_facts :
    (run config held new_service ≡ some held_end)
    × ((system_of echo held_end.systems).shared.locked ≡ true)
    × (lookup 5 held_end.sinks ≡ none)
    × (events_of (heard_for echo held) ≡ handed (run_slack second rounds))
unfolding held_end run step call at caller_of admit entered get_or_create is_own loops_of
    new_service Steps.step move wait region exec new_system new_session ensure_started on_event
    attach deliver_buffered build_event_frames note_activity rewrite_envelope_id toy lookup insert
    delete bytes_beq actor_beq elem identify parse_actor_ref index_byte contains bearer_token
    trim_space drop_first drop_last equal_fold issue_ticket redeem_ticket detach system_of
    rewritten_frames heard_for events_of handed run_slack read_until_close read handle_frame
    decode_envelope is_event is_connection_management
held_facts = (refl, refl, refl, refl)

wakes-AreRewritten_example :
    (b' : Service) × (frames : List Bytes) × AreRewritten ids 0
      (system_of echo held_end.systems).shared.session.buffer
      frames
    × Leads config echo (length held_end.handlers) 5 held_end b'
    × Delivered config 5 frames (system_of echo held_end.systems) (system_of echo b'.systems)
wakes-AreRewritten_example =
    wakes-AreRewritten toy_laws config echo 5 (codes "xapp-1") held held_end world echo_request ids
      second rounds held_facts.0 held_facts.3 echo_asks echo_is_real held_facts.2
