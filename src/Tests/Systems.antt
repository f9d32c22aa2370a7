-- ===== src/Tests/Systems.antt =====
-- The goroutines of a session: runs of the system.
use substrate_ws_poc.Prelude.{
  ℕ, List, [], ◌∷◌, some, none, ◌≡◌, ◌⊎◌, refl, ◌+◌, true, false, get_elem?, ◌++◌, nat_eq,
}
use substrate_ws_poc.Prelude.Bytes.{Bytes, codes, bytes_beq, bytes_eq}
use substrate_ws_poc.Prelude.Dict.{lookup, insert, delete_value}
use substrate_ws_poc.Actor.{ActorRef}
use substrate_ws_poc.SocketMode.{rewrite_envelope_id}
use substrate_ws_poc.Session.State.{Config, Session, done, write, note, new_session}
use substrate_ws_poc.Session.Ops.{
  attach, deliver_buffered, build_event_frames, on_event, note_activity,
}
use substrate_ws_poc.Session.Sections.{exec}
use substrate_ws_poc.Session.Frame.{rewritten_frames}
use substrate_ws_poc.Session.Outbox.{elem}
use substrate_ws_poc.System.State.{
  Shared, runs, writing, serves, listens, Thread, System, new_system,
}
use substrate_ws_poc.System.Steps.{
  goes, hears, beats, Event, moves, connects, move, wait, region, step, run,
}
use substrate_ws_poc.System.Greeting.{given_to}
use substrate_ws_poc.System.Runs.{run-given_to}
use substrate_ws_poc.System.Mutex.{run-exclusive}
use substrate_ws_poc.System.Progress.{Frees, run-Frees}
use substrate_ws_poc.System.Order.{overtaking, facing, run-overtaking}
use substrate_ws_poc.System.Alone.{Alone}
use substrate_ws_poc.System.Delivery.{Delivered, connects-Delivered}
use substrate_ws_poc.Tests.Codec.{toy}
use substrate_ws_poc.Tests.Frames.{first_event, second_event}

abbrev actor : ActorRef
actor = record { atespace = codes "demo"; name = codes "echo-1" }

abbrev hello : Bytes
hello = 0 ∷ []

abbrev config : Config
config = record { deliver_delay = 0; idle_grace = 5; hello_frame = hello }

abbrev ids : ℕ → Bytes
ids i = (i + 100) ∷ []

abbrev go : Event
go = moves 1 (goes ids)

-- An event comes; the actor attaches and its handler takes the mutex.
abbrev arrival : List Event
arrival = moves 0 (hears first_event []) ∷ connects 0 ∷ go ∷ []

-- It also writes the hello, and then the event after a heartbeat.
abbrev delivery : List Event
delivery = arrival ++ go ∷ go ∷ go ∷ moves 1 beats ∷ go ∷ go ∷ go ∷ go ∷ []

abbrev waiting : Session
waiting = record (new_session actor) {
  sink = some 0;
  buffer = record { key = 0; raw = first_event } ∷ [];
  next_key = 1;
}

abbrev slack : Thread
slack = record { role = listens; place = runs done }

abbrev writer : Thread
writer = record { role = serves 0; place = writing 0 [] note }

abbrev arrived : System
arrived = record {
  shared = record { session = waiting; locked = true; log = []; attached = 0 ∷ []; armed = [] };
  threads = slack ∷ record { role = serves 0; place = writing 0 (hello ∷ []) done } ∷ [];
}

abbrev delivered : System
delivered = record {
  shared = record {
    session = record waiting { fresh_ids = (100 ∷ [], 0) ∷ []; settled = true };
    locked = true;
    log =
        record { sink = 0; frame = 1 ∷ 100 ∷ []; written = true }
        ∷ record { sink = 0; frame = hello; written = true }
        ∷ [];
    attached = 0 ∷ [];
    armed = [];
  };
  threads = slack ∷ writer ∷ [];
}

arrival_runs : run config arrival (new_system actor) ≡ some arrived
unfolding run step move wait region exec new_system new_session on_event attach deliver_buffered
    build_event_frames note_activity rewrite_envelope_id toy lookup insert delete_value bytes_beq
    elem
arrival_runs = refl

delivery_runs : run config delivery (new_system actor) ≡ some delivered
unfolding run step move wait region exec new_system new_session on_event attach deliver_buffered
    build_event_frames note_activity rewrite_envelope_id toy lookup insert delete_value bytes_beq
    elem
delivery_runs = refl

run-given_to_example :
    (given_to 0 delivered.shared.log ≡ [])
    ⊎ ((rest : List Bytes) × (given_to 0 delivered.shared.log ≡ hello ∷ rest))
run-given_to_example = run-given_to config actor delivery delivered 0 delivery_runs

run-exclusive_example : ◌≡◌ {A = ℕ} 1 1
run-exclusive_example =
    run-exclusive config actor delivery delivered 1 1 writer writer delivery_runs refl refl refl
      refl

run-Frees_example : (i : ℕ) × (bound : ℕ) × Frees config i ids bound arrived
run-Frees_example = run-Frees config actor arrival arrived ids arrival_runs refl

-- The hello is written, and the handler has seen a heartbeat.
abbrev beating : Shared
beating = record { session = waiting; locked = false; log = []; attached = 0 ∷ []; armed = [] }

buffer_rewritten : rewritten_frames ids 0 waiting.buffer ≡ some ((1 ∷ 100 ∷ []) ∷ [])
unfolding rewritten_frames rewrite_envelope_id toy insert bytes_beq new_session
buffer_rewritten = refl

event_rewritten : rewrite_envelope_id second_event (9 ∷ []) ≡ some (1 ∷ 9 ∷ [])
unfolding rewrite_envelope_id toy insert bytes_beq
event_rewritten = refl

run-overtaking_example :
    (z : System) × (run config
        (overtaking ids second_event (9 ∷ []))
        (record { shared = beating; threads = facing 0 [] })
      ≡ some z)
    × (z.shared.log ≡ record { sink = 0; frame = 1 ∷ 9 ∷ []; written = true } ∷ [])
    × (get_elem? z.threads 1
        ≡ some (record { role = serves 0; place = runs (write 0 ((1 ∷ 100 ∷ []) ∷ []) note) }))
unfolding new_session
run-overtaking_example =
    run-overtaking config beating 0 [] ids second_event (9 ∷ []) (1 ∷ 9 ∷ []) ((1 ∷ 100 ∷ []) ∷ [])
      refl refl refl buffer_rewritten event_rewritten

-- The actor is away, with an event in the buffer.
abbrev asleep : System
asleep = record {
  shared = record beating { session = record waiting { sink = none }; attached = [] };
  threads = slack ∷ [];
}

connects-Delivered_example :
    (m z : System) × (step config (connects 0) asleep ≡ some m)
    × Alone config 1 ids m z
    × Delivered config 0 ((1 ∷ 100 ∷ []) ∷ []) asleep z
unfolding elem
connects-Delivered_example =
    connects-Delivered config 0 ids asleep ((1 ∷ 100 ∷ []) ∷ []) refl refl buffer_rewritten
