-- ===== src/Slack/Events.antt =====
-- What `readSlackUntilClose` of cmd/egress-broker/registry.go acknowledges and hands on.
use substrate_ws_poc.Prelude.{
  Bool, true, false, List, [], ◌∷◌, Option, none, some, ◌≡◌, ◌⊎◌, refl, arith, All, All-append,
  if◌then◌else◌, Bool-cases, inl, inr, ◌==◌,
}
use substrate_ws_poc.Prelude.Bytes.{Bytes, bytes_eq}
use substrate_ws_poc.SocketMode.{
  Json, Envelope, Error, Result, ok, err, is_event, is_connection_management, decode_envelope,
  type_disconnect,
}
use substrate_ws_poc.SocketMode.Classes.{is_event-not_management}
use substrate_ws_poc.SocketMode.Rewrite.{IsEventFrame}
use substrate_ws_poc.Slack.Loop.{
  Action, acks_slack, slack_ack, hands, Iteration, Read, frame, broken, read, handle_frame,
  read_until_close,
}

module _ ⦃json : Json⦄ where
  -- The frames that arrive before the connection breaks, Slack asks for another or `stop` is closed.
  unfoldable pub arrived : List Iteration → List (Envelope × Bytes)
  arrived [] = []
  arrived (i ∷ rest) =
      let later = arrived rest in
      if i.stopped then [] else (elim (read i.text) [
        | broken ↦ []
        | frame e raw ↦ if e.type == type_disconnect then [] else (e, raw) ∷ later
      ])

  -- Each event is acknowledged under its own id, and then handed on.
  unfoldable pub served : List (Envelope × Bytes) → List Action
  served [] = []
  served ((e, raw) ∷ rest) =
      let later = served rest in
      if is_event e then acks_slack (slack_ack e.envelope_id) ∷ hands raw ∷ later else later

  Read-cases : (r : Read) → (r ≡ broken) ⊎ ((e : Envelope) × (raw : Bytes) × (r ≡ frame e raw))
  Read-cases broken = inl refl
  Read-cases (frame e raw) = inr (e, raw, refl)

  disconnect_is_management :
      (e : Envelope) → (e.type == type_disconnect) ≡ true → is_connection_management e ≡ true
  unfolding is_connection_management
  disconnect_is_management e h = ground arith

  -- The actions of the read loop are those for the frames that arrive before it ends, in order: an
  -- event is acknowledged to Slack and handed on, and any other frame has no effect.
  pub read_until_close-served : (is : List Iteration) → read_until_close is ≡ served (arrived is)
  unfolding read_until_close arrived served
  read_until_close-served [] = refl
  read_until_close-served (i ∷ rest) = elim (Read-cases (read i.text)) [
    | inl down ↦ ground (arith, read_until_close-served rest)
    | inr (e, raw, here) ↦
        ground (
          arith,
          read_until_close-served rest,
          is_event-not_management e,
          disconnect_is_management e,
        )
  ]

  abbrev pub HandsEvents : Action → Type 0
  HandsEvents (hands raw) = IsEventFrame raw
  HandsEvents _ = Unit

  Result-cases : (r : Result Envelope) → ((e : Envelope) × (r ≡ ok e)) ⊎ ((e : Error) × (r ≡ err e))
  Result-cases (ok e) = inl (e, refl)
  Result-cases (err e) = inr (e, refl)

  read-IsEventFrame :
      (text : Option Bytes) (e : Envelope) (raw : Bytes)
      → read text ≡ frame e raw
      → is_event e ≡ true
      → IsEventFrame raw
  unfolding read
  read-IsEventFrame none e raw h event = cc
  read-IsEventFrame (some b) e raw h event = elim (Result-cases (decode_envelope b)) [
    | inl (x, good) ↦ (e, ground arith, event)
    | inr (x, bad) ↦ absurd (ground arith)
  ]

  handle_frame-HandsEvents : (text : Option Bytes) → All HandsEvents (handle_frame (read text)).0
  unfolding handle_frame
  handle_frame-HandsEvents text = elim (Read-cases (read text)) [
    | inl down ↦ rw (down, handle_frame) tt
    | inr (e, raw, here) ↦ elim (Bool-cases (is_event e)) [
      | inl event ↦
          rw (here, handle_frame)
            (ground (arith, is_event-not_management e, read-IsEventFrame text e raw))
      | inr other ↦ ground arith
    ]
  ]

  All-if :
      (actions : List Action) (more : Bool)
      → All HandsEvents actions
      → All HandsEvents (if more then actions else [])
  All-if actions true h = h
  All-if actions false h = tt

  -- Every text that the read loop hands to `onEvent` decodes to an event frame.
  pub read_until_close-HandsEvents : (is : List Iteration) → All HandsEvents (read_until_close is)
  unfolding read_until_close
  read_until_close-HandsEvents [] = tt
  read_until_close-HandsEvents (i ∷ rest) = elim (Bool-cases i.stopped) [
    | inl stop ↦ rw stop tt
    | inr go ↦ rw go (
        All-append HandsEvents _ _ (handle_frame-HandsEvents i.text)
          (All-if _ (handle_frame (read i.text)).1 (read_until_close-HandsEvents rest)))
  ]
