-- ===== src/Tests/Connections.antt =====
-- The connection to Slack.
use substrate_ws_poc.Prelude.{
  ℕ, some, ltb, if◌then◌else◌, ◌*◌, List, [], ◌∷◌, ◌++◌, none, ◌≡◌, refl, false,
}
use substrate_ws_poc.Prelude.Bytes.{Bytes, bytes_beq}
use substrate_ws_poc.SocketMode.{decode_envelope, is_event, is_connection_management}
use substrate_ws_poc.Session.Writer.{Look, write_to_sink}
use substrate_ws_poc.Slack.Loop.{
  acks_slack, slack_ack, hands, dials, sleeps, closes, Iteration, connected, second, read,
  read_until_close, run_slack,
}
use substrate_ws_poc.Slack.Events.{arrived, served, read_until_close-served}
use substrate_ws_poc.Slack.Backoff.{refusals, waits, run_slack-waits}
use substrate_ws_poc.Tests.Codec.{toy}
use substrate_ws_poc.Tests.Frames.{first_event, second_event}

abbrev arriving : List Iteration
arriving =
    record { stopped = false; text = some first_event }
    ∷ record { stopped = false; text = some [] }
    ∷ record { stopped = false; text = some second_event }
    ∷ record { stopped = false; text = none }
    ∷ record { stopped = false; text = some first_event }
    ∷ []

arriving_served :
    read_until_close arriving
    ≡ acks_slack (slack_ack (5 ∷ []))
      ∷ hands first_event
      ∷ acks_slack (slack_ack (6 ∷ 7 ∷ []))
      ∷ hands second_event
      ∷ []
unfolding read_until_close read decode_envelope toy is_event is_connection_management bytes_beq
arriving_served = refl

read_until_close-served_example : read_until_close arriving ≡ served (arrived arriving)
read_until_close-served_example = read_until_close-served arriving

run_slack-waits_example :
    run_slack second
      (refusals ((1 ∷ []) ∷ (2 ∷ []) ∷ []) (connected (2 ∷ []) false false arriving ∷ []))
    ≡ dials (1 ∷ [])
      ∷ sleeps second
      ∷ dials (2 ∷ [])
      ∷ sleeps (2 * second)
      ∷ dials (2 ∷ [])
      ∷ (read_until_close arriving ++ closes ∷ run_slack second [])
unfolding waits
run_slack-waits_example = run_slack-waits ((1 ∷ []) ∷ (2 ∷ []) ∷ []) (2 ∷ []) arriving []

-- The sink 0 is replaced before the third frame.
abbrev looks : ℕ → Look
looks i = record { sink = some (if ltb i 2 then 0 else 1); fails = false }

abbrev three_frames : List Bytes
three_frames = (1 ∷ []) ∷ (2 ∷ []) ∷ (3 ∷ []) ∷ []

two_written : write_to_sink 0 looks 0 three_frames ≡ (1 ∷ []) ∷ (2 ∷ []) ∷ []
unfolding write_to_sink
two_written = refl
