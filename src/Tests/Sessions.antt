-- ===== src/Tests/Sessions.antt =====
-- Sessions: runs of locked regions.
use mathlib.Core.Path.{◌≡◌}
use substrate_ws_poc.Prelude.{false, ℕ, ◌+◌, ◌≤◌, List, [], ◌∷◌, some, refl, arith, true, length}
use substrate_ws_poc.Prelude.Bytes.{Bytes, codes, bytes_beq, bytes_eq}
use substrate_ws_poc.Prelude.Dict.{lookup, insert, delete_value}
use substrate_ws_poc.Actor.{ActorRef}
use substrate_ws_poc.SocketMode.{rewrite_envelope_id}
use substrate_ws_poc.Session.State.{Config, Session, done, write, note, suspend, new_session}
use substrate_ws_poc.Session.Ops.{
  build_event_frames, on_idle, begin_forward, end_forward, ack, attach, detach, deliver_buffered,
  on_event, remove_key,
}
use substrate_ws_poc.Session.Sections.{
  Section, notes_activity, idles, begins_forward, ends_forward, detaches, acks, attaches, delivers,
  receives, exec,
}
use substrate_ws_poc.Session.Outbox.{outstanding}
use substrate_ws_poc.Session.Runs.{
  run_sections, received_by, history_after, no_history, buffer-outstanding,
}
use substrate_ws_poc.Session.Total.{IsSafe, new_session-IsSafe, run_sections_total}
use substrate_ws_poc.Session.Latch.{resumes, suspends, room, resumes-le, suspends-le}
use substrate_ws_poc.Session.Idle.{IsCalm, run-IsCalm, attach-never_suspended}
use substrate_ws_poc.Session.Forwards.{
  balance_all, in_flight-le, forward-not_suspended, detach-forgets_forward,
}
use substrate_ws_poc.Tests.Codec.{toy, toy_laws}
use substrate_ws_poc.Tests.Frames.{
  first_event, second_event, first_event-IsEventFrame, second_event-IsEventFrame,
}

abbrev actor : ActorRef
actor = record { atespace = codes "demo"; name = codes "echo-1" }

abbrev config : Config
config = record { deliver_delay = 0; idle_grace = 5; hello_frame = 0 ∷ [] }

abbrev ids : ℕ → Bytes
ids i = (i + 100) ∷ []

-- Two events come while the actor is away; it attaches, both are delivered, and it acks the first.
abbrev session_life : List Section
session_life =
    receives first_event []
    ∷ receives second_event []
    ∷ attaches 0
    ∷ delivers ids 0
    ∷ acks (100 ∷ [])
    ∷ []

abbrev one_left : Session
one_left = record (new_session actor) {
  sink = some 0;
  buffer = record { key = 1; raw = second_event } ∷ [];
  next_key = 2;
  fresh_ids = (101 ∷ [], 1) ∷ [];
  settled = true;
  idle_tmr = true;
}

life_runs : run_sections config session_life (new_session actor) ≡ some one_left
unfolding run_sections exec on_event attach deliver_buffered build_event_frames ack remove_key
    rewrite_envelope_id toy lookup insert delete_value bytes_beq new_session
life_runs = refl

buffer-outstanding_example :
    let h = history_after config session_life (new_session actor) no_history in
    (one_left.buffer ≡ outstanding h) × (h.received ≡ first_event ∷ second_event ∷ [])
unfolding received_by
buffer-outstanding_example =
    buffer-outstanding config actor session_life one_left life_runs (omega arith)

run_sections_total_example :
    (t : Session) × (run_sections config session_life (new_session actor) ≡ some t) × IsSafe t
run_sections_total_example =
    run_sections_total toy_laws config session_life (new_session actor)
      (first_event-IsEventFrame, (second_event-IsEventFrame, (tt, (tt, (tt, tt)))))
      (new_session-IsSafe actor)

-- The actor has attached and waits for its events.
abbrev waiting : Session
waiting = record (new_session actor) {
  sink = some 0;
  buffer = record { key = 0; raw = first_event } ∷ record { key = 1; raw = second_event } ∷ [];
  next_key = 2;
}

abbrev served : Session
served = record waiting { fresh_ids = (100 ∷ [], 0) ∷ (101 ∷ [], 1) ∷ []; settled = true }

abbrev frames : List Bytes
frames = (1 ∷ 100 ∷ []) ∷ (1 ∷ 101 ∷ []) ∷ []

delivery_runs : deliver_buffered ids 0 waiting ≡ some (served, write 0 frames note)
unfolding deliver_buffered build_event_frames rewrite_envelope_id toy insert bytes_beq new_session
delivery_runs = refl

-- Three events while the actor is away start one resume.
abbrev away : List Section
away = receives first_event [] ∷ receives second_event [] ∷ receives first_event [] ∷ []

away-resumes_once : resumes config away (new_session actor) ≡ 1
unfolding resumes exec on_event new_session
away-resumes_once = refl

resumes-le_example : resumes config away (new_session actor) ≤ room (new_session actor).resuming
resumes-le_example = resumes-le config away (new_session actor) (tt, (tt, (tt, tt)))

suspends-le_example : suspends config (idles ∷ idles ∷ []) served ≤ room served.suspending
suspends-le_example = suspends-le config (idles ∷ idles ∷ []) served (tt, (tt, tt))

run-IsCalm_example : IsCalm config one_left
run-IsCalm_example = run-IsCalm config actor session_life one_left life_runs

attach-never_suspended_example :
    suspends config
      (detaches 0 ∷ notes_activity ∷ idles ∷ [])
      (attach config 1 (record served { suspending = true })).0
    ≡ 0
attach-never_suspended_example =
    attach-never_suspended config 1 (detaches 0 ∷ notes_activity ∷ idles ∷ [])
      (record served { suspending = true }) refl ((λ e. cc), (tt, (tt, tt)))

-- Two forwards begin and one ends.
abbrev forwards : List Section
forwards = begins_forward ∷ begins_forward ∷ ends_forward ∷ []

abbrev one_forward : Session
one_forward = record served { in_flight = 1 }

forwards_run : run_sections config forwards served ≡ some one_forward
unfolding run_sections exec begin_forward end_forward new_session
forwards_run = refl

in_flight-le_example : (one_forward.in_flight ≤ 1) × (1 ≤ 0 + length forwards)
unfolding balance_all new_session
in_flight-le_example =
    in_flight-le config forwards served one_forward 0 1 forwards_run refl (omega arith)
      (omega arith)

-- A forward is in flight, and meanwhile another begins, the idle timer fires, and that one ends.
abbrev during : List Section
during = begins_forward ∷ idles ∷ ends_forward ∷ []

during_runs : run_sections config during one_forward ≡ some one_forward
unfolding run_sections exec begin_forward on_idle end_forward new_session
during_runs = refl

forward-not_suspended_example :
    (suspends config during one_forward ≡ 0)
    × (one_forward.suspending ≡ false)
    × (on_idle one_forward ≡ (one_forward, done))
unfolding balance_all new_session
forward-not_suspended_example =
    forward-not_suspended config during one_forward one_forward 0 0 during_runs refl refl
      (omega arith) refl ((λ d. d), ((λ d. d), ((λ d. d), tt)))

detach-forgets_forward_example :
    let t = (attach config 1 (detach 0 (begin_forward served))).0 in
    let u = end_forward config (begin_forward t) in
    (u.in_flight ≡ 0) × (on_idle u ≡ (record u { suspending = true }, suspend))
unfolding new_session
detach-forgets_forward_example = detach-forgets_forward config served 0 1 refl
