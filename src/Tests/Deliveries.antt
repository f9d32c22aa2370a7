-- ===== src/Tests/Deliveries.antt =====
-- What one connection gets.
use substrate_ws_poc.Prelude.{All, ◌≢◌, ℕ, ◌+◌, List, [], ◌∷◌, some, ◌≡◌, refl, arith, true, nat_eq}
use substrate_ws_poc.Prelude.Bytes.{Bytes, codes, bytes_beq, bytes_eq}
use substrate_ws_poc.Prelude.Dict.{lookup, insert, delete_value}
use substrate_ws_poc.Actor.{ActorRef}
use substrate_ws_poc.SocketMode.{rewrite_envelope_id}
use substrate_ws_poc.Session.State.{Config, Session, PendingEvent, write, note, new_session}
use substrate_ws_poc.Session.Ops.{
  build_event_frames, attach, deliver_buffered, on_event, ack, remove_key,
}
use substrate_ws_poc.Session.Sections.{Section, attaches, delivers, receives, acks, exec}
use substrate_ws_poc.Session.Runs.{run_sections, received_by}
use substrate_ws_poc.Session.Ascends.{Ascends}
use substrate_ws_poc.Session.Written.{AreFrames}
use substrate_ws_poc.Session.Kept.{IsReceived}
use substrate_ws_poc.Session.Once.{frames_by, attached-AreFrames}
use substrate_ws_poc.Session.Ids.{AreDistinct}
use substrate_ws_poc.Session.Drain.{ack_all, without, deliver-ack_one, deliver-ack_all}
use substrate_ws_poc.Tests.Codec.{toy}
use substrate_ws_poc.Tests.Frames.{first_event, second_event}

abbrev actor : ActorRef
actor = record { atespace = codes "demo"; name = codes "echo-1" }

abbrev config : Config
config = record { deliver_delay = 0; idle_grace = 5; hello_frame = 0 ∷ [] }

abbrev ids : ℕ → Bytes
ids i = (i + 100) ∷ []

-- An event comes while the actor is away.
abbrev away : List Section
away = receives first_event [] ∷ []

abbrev waiting : Session
waiting = record (new_session actor) {
  resuming = true;
  buffer = record { key = 0; raw = first_event } ∷ [];
  next_key = 1;
}

-- It is delivered twice, as the code sees it, acknowledged, and another one comes.
abbrev connected : List Section
connected =
    delivers ids 0 ∷ delivers ids 0 ∷ acks (100 ∷ []) ∷ receives second_event (200 ∷ []) ∷ []

abbrev served : Session
served = record (new_session actor) {
  sink = some 0;
  buffer = record { key = 1; raw = second_event } ∷ [];
  next_key = 2;
  fresh_ids = (200 ∷ [], 1) ∷ [];
  settled = true;
  idle_tmr = true;
}

away_runs : run_sections config away (new_session actor) ≡ some waiting
unfolding run_sections exec on_event new_session
away_runs = refl

connected_runs : run_sections config connected (attach config 0 waiting).0 ≡ some served
unfolding run_sections exec on_event attach deliver_buffered build_event_frames ack remove_key
    rewrite_envelope_id toy lookup insert delete_value bytes_beq new_session
connected_runs = refl

connected_frames :
    frames_by config connected (attach config 0 waiting).0 ≡ (1 ∷ 100 ∷ []) ∷ (1 ∷ 200 ∷ []) ∷ []
unfolding frames_by exec on_event attach deliver_buffered build_event_frames ack remove_key
    rewrite_envelope_id toy lookup insert delete_value bytes_beq new_session
connected_frames = refl

attached-AreFrames_example :
    (es : List PendingEvent) × AreFrames es (frames_by config connected (attach config 0 waiting).0)
    × Ascends 0 es 2
    × All (IsReceived (first_event ∷ second_event ∷ [])) es
unfolding new_session received_by
attached-AreFrames_example =
    attached-AreFrames config actor away connected 0 waiting served away_runs connected_runs
      (refl, (refl, (refl, (refl, tt)))) (omega arith)

-- Two events come while the actor is away, and it connects.
abbrev joined : List Section
joined = receives first_event [] ∷ receives second_event [] ∷ attaches 0 ∷ []

abbrev holding : Session
holding = record (new_session actor) {
  sink = some 0;
  buffer = record { key = 0; raw = first_event } ∷ record { key = 1; raw = second_event } ∷ [];
  next_key = 2;
}

abbrev stamped : Session
stamped = record holding { fresh_ids = (100 ∷ [], 0) ∷ (101 ∷ [], 1) ∷ []; settled = true }

joined_runs : run_sections config joined (new_session actor) ≡ some holding
unfolding run_sections exec on_event attach new_session
joined_runs = refl

delivery_runs :
    deliver_buffered ids 0 holding
    ≡ some (stamped, write 0 ((1 ∷ 100 ∷ []) ∷ (1 ∷ 101 ∷ []) ∷ []) note)
unfolding deliver_buffered build_event_frames rewrite_envelope_id toy insert bytes_beq new_session
delivery_runs = refl

ids_distinct : AreDistinct ids
ids_distinct i j e = ground arith

deliver-ack_one_example :
    ((ack config (ids 1) stamped).buffer ≡ without 1 holding.buffer)
    × All (λ b. b.1 ≢ 1) (ack config (ids 1) stamped).fresh_ids
unfolding new_session received_by
deliver-ack_one_example =
    deliver-ack_one config ids actor joined 0 1 holding stamped _
      (record { key = 1; raw = second_event }) ids_distinct joined_runs (omega arith) refl refl
      delivery_runs refl (λ e. cc)

deliver-ack_all_example : (ack_all config ids 0 2 stamped).buffer ≡ []
unfolding new_session received_by
deliver-ack_all_example =
    deliver-ack_all config ids (λ i e. cc) actor joined 0 holding stamped _ ids_distinct joined_runs
      (omega arith) refl refl delivery_runs
