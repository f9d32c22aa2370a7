-- ===== src/Session/State.antt =====
-- `session`, `pendingEvent` and the settings of `Registry` in cmd/egress-broker/registry.go.
use substrate_ws_poc.Prelude.{ℕ, ◌+◌, ◌%◌, ◌^◌, Bool, false, ◌&&◌, List, [], Option, none, ltb}
use substrate_ws_poc.Prelude.Bytes.{Bytes}
use substrate_ws_poc.Actor.{ActorRef}

-- Durations in nanoseconds. The code only asks whether they are above 0, so a negative one is 0.
-- `hello_frame` is the package's variable.
pub record Config : Type 0 where
  pub deliver_delay : ℕ
  pub idle_grace : ℕ
  pub hello_frame : Bytes

pub record PendingEvent : Type 0 where
  pub key : ℕ  -- uint64
  pub raw : Bytes

-- The channel `stop`: nil, open or closed.
pub data Stop : Type 0 where
  nil open_chan closed_chan : Stop

-- The state that the session's mutex guards. A sink is known by a number, as the code compares pointers. A timer is the sink that its
-- callback was given, or for `idle_tmr` whether the field is set.
pub record Session : Type 0 where
  pub ref : ActorRef
  pub app_token : Bytes
  pub started : Bool
  pub closed : Bool
  pub stop : Stop
  pub sink : Option ℕ
  pub resuming : Bool
  pub buffer : List PendingEvent
  pub next_key : ℕ  -- uint64
  pub fresh_ids : List (Bytes × ℕ)
  pub settled : Bool
  pub deliver_tmr : Option ℕ
  pub idle_tmr : Bool
  pub in_flight : ℕ  -- int, as its bit pattern
  pub suspending : Bool

abbrev pub word : ℕ
word = 2 ^ 64

-- `n > 0` on an int.
abbrev pub is_positive : ℕ → Bool
is_positive n = ltb 0 n && ltb n (2 ^ 63)

abbrev pub increment : ℕ → ℕ
increment n = (n + 1) % word

-- `&session{ref: ref, reg: r, freshIDs: make(map[string]uint64)}`.
unfoldable pub new_session : ActorRef → Session
new_session ref = record {
  ref = ref;
  app_token = [];
  started = false;
  closed = false;
  stop = nil;
  sink = none;
  resuming = false;
  buffer = [];
  next_key = 0;
  fresh_ids = [];
  settled = false;
  deliver_tmr = none;
  idle_tmr = false;
  in_flight = 0;
  suspending = false;
}

-- What a goroutine does after a locked region.
pub data Task : Type 0 where
  done : Task
  write : ℕ → List Bytes → Task → Task  -- `writeToSink(sink, frames)`, then the rest
  deliver : ℕ → Task  -- `deliverBufferedNow(sink, …)`
  note : Task  -- `noteActivity()`
  arm : ℕ → Task  -- the second locked region of `Attach`
  resume : Task  -- `resumeActor()`
  suspend : Task  -- the call of `Suspend` in `onIdle`
  run_slack : Task  -- `runSlack(stop)`
