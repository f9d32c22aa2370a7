-- ===== src/Session/Ops.antt =====
-- The locked regions of cmd/egress-broker/registry.go. Each returns the new session and what the
-- goroutine does next; `none` is a panic. Fresh ids are arguments: the results of `randID`.
use substrate_ws_poc.Prelude.{
  ℕ, ◌+◌, ◌-◌, Bool, true, false, not, ◌&&◌, ◌||◌, List, [], ◌∷◌, ◌++◌, Option, none, some, ◌>>=◌,
  ◌==◌, nat_eq, ltb, length, is_none, if◌then◌else◌,
}
use substrate_ws_poc.Prelude.Bytes.{Bytes, bytes_eq}
use substrate_ws_poc.Prelude.Dict.{lookup, insert, delete_value}
use substrate_ws_poc.SocketMode.{Json, rewrite_envelope_id}
use substrate_ws_poc.Session.State.{
  Config, Session, PendingEvent, Stop, nil, open_chan, closed_chan, Task, done, write, deliver,
  note, arm, resume, suspend, run_slack, is_positive, increment,
}

-- `s.sink == sink` for a sink that is not nil.
abbrev pub is_current : ℕ → Option ℕ → Bool
is_current k none = false
is_current k (some j) = j == k

unfoldable pub arm_idle : Config → Session → Session
arm_idle c s =
    let stopped = record s { idle_tmr = false } in
    if is_none s.sink || s.suspending || is_positive s.in_flight || c.idle_grace == 0
    then stopped
    else record stopped { idle_tmr = true }

-- `noteActivity`.
unfoldable pub note_activity : Config → Session → Session
unfolding arm_idle
note_activity c s = arm_idle c s

-- The first locked region of `onIdle`.
unfoldable pub on_idle : Session → Session × Task
on_idle s =
    if is_none s.sink || s.suspending || is_positive s.in_flight
    then (s, done)
    else (record s { suspending = true }, suspend)

-- The second one, after `Suspend` has failed.
unfoldable pub suspend_failed : Config → Session → Session
unfolding arm_idle
suspend_failed c s = arm_idle c (record s { suspending = false })

unfoldable pub begin_forward : Session → Session
begin_forward s = record s { in_flight = increment s.in_flight; idle_tmr = false }

unfoldable pub end_forward : Config → Session → Session
unfolding arm_idle
end_forward c s =
    arm_idle c (if is_positive s.in_flight then record s { in_flight = s.in_flight - 1 } else s)

unfoldable pub ensure_started : Bytes → Session → Session × Task
ensure_started token s =
    let captured = record s { app_token = token } in
    if s.started || s.closed
    then (captured, done)
    else (record captured { started = true; stop = open_chan }, run_slack)

-- The region of `resumeActor` that follows a failed resume.
unfoldable pub resume_failed : Session → Session
resume_failed s = record s { resuming = false }

close_stop : Stop → Option Stop
close_stop nil = some nil
close_stop open_chan = some closed_chan
close_stop closed_chan = none

unfoldable pub close : Session → Option Session
unfolding close_stop
close s =
    if s.closed
    then some s
    else (close_stop s.stop >>= λ stopped. some (record s { closed = true; stop = stopped }))

unfoldable pub detach : ℕ → Session → Session
detach k s =
    if is_current k s.sink
    then record s {
      sink = none;
      settled = false;
      suspending = false;
      in_flight = 0;
      deliver_tmr = none;
      idle_tmr = false;
    }
    else s

-- `for i, e := range s.buffer { if e.key == key { … break } }`.
unfoldable pub remove_key : ℕ → List PendingEvent → List PendingEvent
remove_key k [] = []
remove_key k (e ∷ es) = if e.key == k then es else e ∷ remove_key k es

ack_key : Config → Session → Option ℕ → Session
ack_key c s none = s
ack_key c s (some k) =
    arm_idle c (record s { buffer = remove_key k s.buffer; fresh_ids = delete_value k s.fresh_ids })

-- `Ack`.
unfoldable pub ack : Config → Bytes → Session → Session
unfolding ack_key arm_idle
ack c id s = if id == [] then s else ack_key c s (lookup id s.fresh_ids)

-- `Attach` up to its first unlock, and the rest of it as a task.
unfoldable pub attach : Config → ℕ → Session → Session × Task
attach c k s =
    let buffered = length s.buffer in
    (
      record s { sink = some k; resuming = false; settled = false; deliver_tmr = none },
      write k (c.hello_frame ∷ [])
          (if buffered == 0 then deliver k else if ltb 0 c.deliver_delay then arm k else done),
    )

-- `MarkReady`: `deliverBufferedNow(sink, "heartbeat")`.
abbrev pub mark_ready : ℕ → Task
mark_ready k = deliver k

-- The second locked region of `Attach`.
unfoldable pub arm_fallback : ℕ → Session → Session
arm_fallback k s = record s { deliver_tmr = some k }

module _ ⦃json : Json⦄ where
  unfoldable pub stamp : Bytes → PendingEvent → Session → Option (Session × Bytes)
  stamp fresh e s = rewrite_envelope_id e.raw fresh >>= λ frame.
      some (record s { fresh_ids = insert fresh e.key s.fresh_ids }, frame)

  -- The id of the i-th frame is `ids i`.
  unfoldable pub build_event_frames :
      (ℕ → Bytes) → ℕ → List PendingEvent → Session → Option (Session × List Bytes)
  unfolding stamp
  build_event_frames ids i [] s = some (s, [])
  build_event_frames ids i (e ∷ es) s = stamp (ids i) e s >>= λ (t, frame).
      build_event_frames ids (i + 1) es t >>= λ (u, frames). some (u, frame ∷ frames)

  -- `deliverBufferedNow` up to its unlock.
  unfoldable pub deliver_buffered : (ℕ → Bytes) → ℕ → Session → Option (Session × Task)
  deliver_buffered ids k s =
      if not (is_current k s.sink) || s.settled
      then some (s, done)
      else (build_event_frames ids 0 s.buffer (record s { settled = true; deliver_tmr = none })
          >>= λ (t, frames). some (t, write k frames note))

  deliver_event : Bytes → PendingEvent → Bool → Option ℕ → Session → Option (Session × Task)
  unfolding stamp
  deliver_event fresh e need_resume none s = some (s, if need_resume then resume else done)
  deliver_event fresh e need_resume (some k) s =
      if s.settled
      then (stamp fresh e s >>= λ (t, frame). some (t, write k (frame ∷ []) note))
      else some (s, done)

  -- `onEvent`; `fresh` is used if the event is delivered at once.
  unfoldable pub on_event : Bytes → Bytes → Session → Option (Session × Task)
  unfolding deliver_event
  on_event raw fresh s =
      let e : PendingEvent = record { key = s.next_key; raw = raw } in
      let need_resume = is_none s.sink && not s.resuming in
      deliver_event fresh e need_resume s.sink (record s {
        next_key = increment s.next_key;
        buffer = s.buffer ++ e ∷ [];
        resuming = if need_resume then true else s.resuming;
      })
