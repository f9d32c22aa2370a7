-- ===== src/Slack/Acks.antt =====
-- What `runSlack` of cmd/egress-broker/registry.go acknowledges to Slack and what it hands on.
use substrate_ws_poc.Prelude.{
  ℕ, true, false, List, [], ◌∷◌, ◌++◌, ◌≡◌, refl, arith, length, Bool-cases, inl, inr, All,
  All-append,
}
use substrate_ws_poc.Prelude.Bytes.{Bytes}
use substrate_ws_poc.SocketMode.{Json, Envelope, is_event}
use substrate_ws_poc.Slack.Loop.{
  Action, acks_slack, hands, closes, Round, refused, connected, run_slack, next_backoff, second,
}
use substrate_ws_poc.SocketMode.Rewrite.{IsEventFrame}
use substrate_ws_poc.Slack.Events.{
  arrived, served, read_until_close-served, HandsEvents, read_until_close-HandsEvents,
}

-- The ids that are acknowledged to Slack.
unfoldable pub acked_to_slack : List Action → List Bytes
acked_to_slack [] = []
acked_to_slack (acks_slack a ∷ rest) = a.envelope_id ∷ acked_to_slack rest
acked_to_slack (_ ∷ rest) = acked_to_slack rest

-- The texts that `onEvent` is called with.
unfoldable pub handed : List Action → List Bytes
handed [] = []
handed (hands raw ∷ rest) = raw ∷ handed rest
handed (_ ∷ rest) = handed rest

AreBalanced : List Action → Type 0
AreBalanced actions = length (acked_to_slack actions) ≡ length (handed actions)

module _ ⦃json : Json⦄ where
  -- Any actions may follow that are balanced.
  served_then :
      (es : List (Envelope × Bytes)) (later : List Action)
      → AreBalanced later
      → AreBalanced (served es ++ later)
  unfolding AreBalanced served acked_to_slack handed
  served_then [] later h = h
  served_then ((e, raw) ∷ rest) later h = elim (Bool-cases (is_event e)) [
    | inl event ↦ rw event (ground (arith, served_then rest later h))
    | inr other ↦ rw other (served_then rest later h)
  ]

  -- One acknowledgement for each event, whatever the dials and the connections bring.
  pub length-acked_to_slack :
      (backoff : ℕ) (rounds : List Round)
      → length (acked_to_slack (run_slack backoff rounds))
        ≡ length (handed (run_slack backoff rounds))
  unfolding run_slack acked_to_slack handed AreBalanced
  length-acked_to_slack backoff [] = refl
  length-acked_to_slack backoff (refused token before wake ∷ rest) =
      let later = length-acked_to_slack (next_backoff backoff) rest in ground (arith, later)
  length-acked_to_slack backoff (connected token true after arriving ∷ rest) = refl
  length-acked_to_slack backoff (connected token false true arriving ∷ rest) =
      rw (read_until_close-served arriving) (served_then (arrived arriving) (closes ∷ []) refl)
  length-acked_to_slack backoff (connected token false false arriving ∷ rest) =
      rw (read_until_close-served arriving) (
        served_then (arrived arriving) (closes ∷ run_slack second rest)
          (length-acked_to_slack second rest))

  run_slack-HandsEvents :
      (backoff : ℕ) (rounds : List Round) → All HandsEvents (run_slack backoff rounds)
  unfolding run_slack
  run_slack-HandsEvents backoff [] = tt
  run_slack-HandsEvents backoff (refused token before wake ∷ rest) =
      let later = run_slack-HandsEvents (next_backoff backoff) rest in ground (arith, later)
  run_slack-HandsEvents backoff (connected token true after arriving ∷ rest) = tt
  run_slack-HandsEvents backoff (connected token false true arriving ∷ rest) =
      (tt, All-append HandsEvents _ (closes ∷ []) (read_until_close-HandsEvents arriving) (tt, tt))
  run_slack-HandsEvents backoff (connected token false false arriving ∷ rest) = (
    tt,
    All-append HandsEvents _ (closes ∷ run_slack second rest)
        (read_until_close-HandsEvents arriving) (tt, run_slack-HandsEvents second rest),
  )

  HandsEvents-handed :
      (actions : List Action) → All HandsEvents actions → All IsEventFrame (handed actions)
  unfolding handed
  HandsEvents-handed [] h = tt
  HandsEvents-handed (hands raw ∷ rest) h = (h.0, HandsEvents-handed rest h.1)
  HandsEvents-handed (_ ∷ rest) h = HandsEvents-handed rest h.1

  -- Whatever the dials and the connections bring, every text that is handed on is an event frame.
  pub handed-IsEventFrame :
      (backoff : ℕ) (rounds : List Round) → All IsEventFrame (handed (run_slack backoff rounds))
  handed-IsEventFrame backoff rounds =
      HandsEvents-handed (run_slack backoff rounds) (run_slack-HandsEvents backoff rounds)
