-- ===== src/System/State.antt =====
-- The state that the goroutines of one session share, and where each of them stands.
use substrate_ws_poc.Prelude.{ℕ, Bool, false, List, [], ◌∷◌}
use substrate_ws_poc.Prelude.Bytes.{Bytes}
use substrate_ws_poc.Actor.{ActorRef}
use substrate_ws_poc.Session.State.{Session, Task, new_session}

-- A call of `WriteFrame`: the sink, the frame, and whether it succeeded.
pub record Write : Type 0 where
  pub sink : ℕ
  pub frame : Bytes
  pub written : Bool

-- `attached` has every sink so far, and `armed` those for which a fallback timer was started.
pub record Shared : Type 0 where
  pub session : Session
  pub locked : Bool  -- the mutex `sinkWrite`
  pub log : List Write  -- latest first
  pub attached : List ℕ
  pub armed : List ℕ

-- In a method the goroutine has a task to do, or is in `writeToSink`: at the head of its loop, or
-- before the call of `WriteFrame` with the frame. `runs (write …)` waits for the mutex, and `gone` is
-- the end of a connection's handler.
pub data Place : Type 0 where
  runs : Task → Place
  writing : ℕ → List Bytes → Task → Place
  sending : ℕ → Bytes → List Bytes → Task → Place
  gone : Place

-- What a goroutine does when it has nothing left to do: read from its actor, from Slack, or end.
pub data Role : Type 0 where
  serves : ℕ → Role
  listens : Role
  ends : Role

pub record Thread : Type 0 where
  pub role : Role
  pub place : Place

pub record System : Type 0 where
  pub shared : Shared
  pub threads : List Thread

-- A new session with its read loop.
unfoldable pub new_system : ActorRef → System
new_system ref = record {
  shared = record {
    session = new_session ref;
    locked = false;
    log = [];
    attached = [];
    armed = [];
  };
  threads = record { role = listens; place = runs Task.done } ∷ [];
}
