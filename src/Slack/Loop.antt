-- ===== src/Slack/Loop.antt =====
-- `readSlackUntilClose` and `runSlack` of cmd/egress-broker/registry.go as what they do to the
-- outside, one action after another. Other goroutines run between the actions.
use substrate_ws_poc.Prelude.{
  ℕ, ◌*◌, Bool, true, false, List, [], ◌∷◌, ◌++◌, Option, none, some, ◌==◌, ltb, if◌then◌else◌,
}
use substrate_ws_poc.Prelude.Bytes.{Bytes, bytes_eq}
use substrate_ws_poc.SocketMode.{
  Json, Envelope, Ack, Result, ok, err, type_disconnect, decode_envelope, is_connection_management,
  is_event,
}

abbrev pub second : ℕ
second = 1_000_000_000

-- int64 nanoseconds; no argument of the loop comes near the wrap.
unfoldable pub next_backoff : ℕ → ℕ
next_backoff d = if ltb (30 * second) (d * 2) then 30 * second else d * 2

-- What `SlackConn.Read` returns.
pub data Read : Type 0 where
  frame : Envelope → Bytes → Read
  broken : Read

-- What `SlackConn.Ack` writes.
unfoldable pub slack_ack : Bytes → Ack
slack_ack id = record { envelope_id = id; payload = [] }

pub data Action : Type 0 where
  acks_slack : Ack → Action  -- an error of the write is only logged
  hands : Bytes → Action  -- `onEvent(raw)`
  dials : Bytes → Action  -- with a token
  sleeps : ℕ → Action
  closes : Action  -- `conn.Close()`

-- Whether `stop` is closed when an iteration starts, and the text that then arrives; `none` is an
-- error of the connection.
pub record Iteration : Type 0 where
  pub stopped : Bool
  pub text : Option Bytes

-- What ends a sleep.
pub data Wake : Type 0 where
  elapses stops : Wake

-- `sleepOrStop`.
unfoldable pub sleep_or_stop : Wake → Bool
sleep_or_stop elapses = true
sleep_or_stop stops = false

pub data Round : Type 0 where
  -- The session's token, whether `stop` is closed before the dial, and what ends the sleep.
  refused : Bytes → Bool → Wake → Round
  -- The token, whether `stop` is closed before the dial and after the connection, and what arrives
  -- on it.
  connected : Bytes → Bool → Bool → List Iteration → Round

module _ ⦃json : Json⦄ where
  read_result : Bytes → Result Envelope → Read
  read_result raw (ok e) = frame e raw
  read_result raw (err _) = broken

  -- `gorillaSlackConn.Read`.
  unfoldable pub read : Option Bytes → Read
  unfolding read_result
  read none = broken
  read (some raw) = read_result raw (decode_envelope raw)

  -- The `switch` on a frame: the actions, and whether the loop goes on.
  unfoldable pub handle_frame : Read → List Action × Bool
  handle_frame broken = ([], false)
  handle_frame (frame e raw) =
      if is_connection_management e
      then (if e.type == type_disconnect then ([], false) else ([], true))
      else (if is_event e
          then (acks_slack (slack_ack e.envelope_id) ∷ hands raw ∷ [], true)
          else ([], true))

  unfoldable pub read_until_close : List Iteration → List Action
  unfolding handle_frame
  read_until_close [] = []
  read_until_close (i ∷ rest) =
      let later = read_until_close rest in
      let (now, more) = handle_frame (read i.text) in
      if i.stopped then [] else now ++ (if more then later else [])

  -- `runSlack` from a given backoff.
  unfoldable pub run_slack : ℕ → List Round → List Action
  unfolding sleep_or_stop
  run_slack backoff [] = []
  run_slack backoff (refused token before wake ∷ rest) =
      let later = run_slack (next_backoff backoff) rest in
      if before
      then []
      else dials token ∷ sleeps backoff ∷ (if sleep_or_stop wake then later else [])
  run_slack backoff (connected token before after arriving ∷ rest) =
      let later = run_slack second rest in
      if before
      then []
      else dials token ∷ (read_until_close arriving ++ closes ∷ (if after then [] else later))
