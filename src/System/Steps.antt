-- ===== src/System/Steps.antt =====
-- One step of one goroutine, and of the system. `none` is a step that cannot be taken, or a panic.
use substrate_ws_poc.Prelude.{
  ℕ, Bool, true, false, List, [], ◌∷◌, ◌++◌, Option, none, some, ◌>>=◌, if◌then◌else◌, get_elem?,
  set, ◌≡◌, refl,
}
use substrate_ws_poc.Prelude.Bytes.{Bytes}
use substrate_ws_poc.SocketMode.{Json}
use substrate_ws_poc.Session.State.{
  Config, Session, Task, done, write, deliver, note, arm, resume, suspend, run_slack,
}
use substrate_ws_poc.Session.Ops.{is_current, attach, mark_ready}
use substrate_ws_poc.Session.Sections.{
  Section, attaches, detaches, arms_fallback, delivers, receives, exec,
}
use substrate_ws_poc.Session.Outbox.{elem}
use substrate_ws_poc.System.State.{
  Shared, Place, runs, writing, sending, gone, Role, serves, listens, ends, Thread, System,
}

-- What the outside decides: the fresh ids, whether a write fails, and what arrives.
pub data Choice : Type 0 where
  goes : (ℕ → Bytes) → Choice
  fails : Choice
  beats : Choice  -- the actor's heartbeat
  confirms : Bytes → Choice  -- the actor's message with this envelope id
  leaves : Choice  -- the actor's connection ends
  hears : Bytes → Bytes → Choice  -- an event of Slack, and the id for it

-- A new goroutine that has the task, where the method ends by `go` or by a callback.
abbrev pub rest_of : Task → Task
rest_of resume = done
rest_of suspend = done
rest_of run_slack = done
rest_of t = t

abbrev pub with_session : Shared → Session → Shared
with_session sh s = record sh { session = s }

abbrev pub logged : ℕ → Bytes → Bool → Shared → Shared
logged k f ok sh = record sh { log = record { sink = k; frame = f; written = ok } ∷ sh.log }

module _ ⦃json : Json⦄ (c : Config) where
  -- A region of the session, and the task that it gives.
  unfoldable pub region : Shared → Section → Option (Shared × Place)
  region sh sec =
      exec c sec sh.session >>= λ (s, task). some (with_session sh s, runs (rest_of task))

  -- A goroutine that has nothing left to do.
  unfoldable pub wait : Role → Choice → Shared → Option (Shared × Place)
  unfolding region
  wait (serves k) beats sh = some (sh, runs (mark_ready k))
  wait (serves k) (confirms id) sh = region sh (Section.acks id)
  wait (serves k) leaves sh = region sh (detaches k) >>= λ (sh', p). some (sh', gone)
  wait listens (hears raw fresh) sh = region sh (receives raw fresh)
  wait _ _ sh = none

  -- `writeToSink`: take the mutex; test the sink; write, or give up.
  unfoldable pub move : Role → Choice → Place → Shared → Option (Shared × Place)
  unfolding region wait
  move r ch (runs done) sh = wait r ch sh
  move r (goes ids) (runs (write k frames t)) sh =
      if sh.locked then none else some (record sh { locked = true }, writing k frames t)
  move r (goes ids) (runs (deliver k)) sh = region sh (delivers ids k)
  move r (goes ids) (runs note) sh = region sh Section.notes_activity
  move r (goes ids) (runs (arm k)) sh =
      region (record sh { armed = k ∷ sh.armed }) (arms_fallback k)
  move r (goes ids) (writing k [] t) sh = some (record sh { locked = false }, runs t)
  move r (goes ids) (writing k (f ∷ frames) t) sh =
      if is_current k sh.session.sink
      then some (sh, sending k f frames t)
      else some (record sh { locked = false }, runs t)
  move r (goes ids) (sending k f frames t) sh = some (logged k f true sh, writing k frames t)
  move r fails (sending k f frames t) sh =
      some (record (logged k f false sh) { locked = false }, runs t)
  move _ _ _ sh = none

-- A step of the system: a goroutine's, a new connection, a fallback timer that fires, or a region of
-- another method.
pub data Event : Type 0 where
  moves : ℕ → Choice → Event
  connects : ℕ → Event
  fires : ℕ → Event
  runs_region : Section → Event

-- The regions that the goroutines of the system do not run themselves.
abbrev pub is_other : Section → Bool
is_other (attaches k) = false
is_other (detaches k) = false
is_other (arms_fallback k) = false
is_other (delivers ids k) = false
is_other (receives raw fresh) = false
is_other (Section.acks id) = false
is_other _ = true

abbrev pub spawn : Role → Place → List Thread → List Thread
spawn r p threads = threads ++ record { role = r; place = p } ∷ []

-- The i-th goroutine, now at another place.
abbrev pub placed : ℕ → System → Thread → Shared → Place → System
placed i y th sh p = record { shared = sh; threads = set y.threads i (record th { place = p }) }

module _ ⦃json : Json⦄ (c : Config) where
  unfoldable pub step : Event → System → Option System
  step (moves i ch) y = get_elem? y.threads i >>= λ th.
      move c th.role ch th.place y.shared >>= λ (sh, p).
      some (record { shared = sh; threads = set y.threads i (record th { place = p }) })
  step (connects k) y =
      if elem k y.shared.attached
      then none
      else (let (s, task) = attach c k y.shared.session in
          some (record {
            shared = record (with_session y.shared s) { attached = k ∷ y.shared.attached };
            threads = spawn (serves k) (runs task) y.threads;
          }))
  step (fires k) y =
      if elem k y.shared.armed
      then some (record y { threads = spawn ends (runs (deliver k)) y.threads })
      else none
  step (runs_region sec) y =
      if is_other sec
      then (exec c sec y.shared.session >>= λ (s, task).
          some (record y { shared = with_session y.shared s }))
      else none

  unfoldable pub run : List Event → System → Option System
  run [] y = some y
  run (e ∷ es) y = step e y >>= run es

  -- A step of one goroutine, from its place.
  pub step_moves :
      (i : ℕ) (ch : Choice) (y : System) (th : Thread) (sh : Shared) (p : Place)
      → get_elem? y.threads i ≡ some th
      → move c th.role ch th.place y.shared ≡ some (sh, p)
      → step (moves i ch) y ≡ some (placed i y th sh p)
  unfolding step
  step_moves i ch y th sh p at moved = rw (at, moved) refl

  pub run_then :
      (e : Event) (es : List Event) (y m z : System)
      → step e y ≡ some m
      → run es m ≡ some z
      → run (e ∷ es) y ≡ some z
  unfolding run
  run_then e es y m z here later = rw here later

  pub run_nil : (y : System) → run [] y ≡ some y
  unfolding run
  run_nil y = refl
