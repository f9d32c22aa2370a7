-- ===== src/Broker/Kept.antt =====
-- The events that cmd/egress-broker/registry.go acknowledges to Slack, and what its process still has
-- of them.
use substrate_ws_poc.Prelude.{
  ℕ, ◌+◌, ◌≤◌, List, [], ◌∷◌, some, ◌≡◌, refl, sym, ap, ◌∙◌, subst, arith, length, All,
  Option-cases, inl, inr, nat_eq,
}
use substrate_ws_poc.Prelude.Bytes.{Bytes, bytes_eq}
use substrate_ws_poc.Prelude.Dict.{lookup}
use substrate_ws_poc.Actor.{ActorRef}
use substrate_ws_poc.SocketMode.{Json}
use substrate_ws_poc.Session.State.{Config, Session, word, new_session}
use substrate_ws_poc.Session.Sections.{Section, acks, receives, exec}
use substrate_ws_poc.Session.Outbox.{History, settle, post}
use substrate_ws_poc.Session.Refines.{advance}
use substrate_ws_poc.Session.Runs.{history_after, no_history, history_after-received}
use substrate_ws_poc.Session.Kept.{IsReceived, received-le, outstanding-IsReceived}
use substrate_ws_poc.System.Refines.{
  Input, event, confirmation, inputs_of, events_of, events_of-inputs_of,
}
use substrate_ws_poc.Slack.Loop.{Round, run_slack}
use substrate_ws_poc.Slack.Acks.{acked_to_slack, handed, length-acked_to_slack}
use substrate_ws_poc.Broker.State.{Service, new_service, system_of}
use substrate_ws_poc.Broker.Steps.{Event, run}
use substrate_ws_poc.Broker.Separate.{heard_for, run-separate}

-- The ids that the actor confirms.
unfoldable pub confirmations_of : List Input → List Bytes
confirmations_of [] = []
confirmations_of (event raw ∷ rest) = confirmations_of rest
confirmations_of (confirmation id ∷ rest) = id ∷ confirmations_of rest

advance-acked :
    (sec : Section) (rest : List Section) (s : Session) (h : History)
    → length (advance sec s h).acked + length (confirmations_of (inputs_of rest))
      ≤ length h.acked + length (confirmations_of (inputs_of (sec ∷ rest)))
unfolding advance inputs_of confirmations_of settle post
advance-acked (acks id) rest s h = elim (Option-cases (lookup id s.fresh_ids)) [
  | inl unknown ↦ ground arith
  | inr (k, known) ↦ ground arith
]
advance-acked (receives raw fresh) rest s h = omega arith
advance-acked _ rest s h = omega arith

-- The keys acknowledged since h are no more than the ids that these regions confirm.
abbrev AreConfirmed : History → List Section → History → Type 0
AreConfirmed h secs past =
    length past.acked ≤ length h.acked + length (confirmations_of (inputs_of secs))

module _ ⦃json : Json⦄ (c : Config) where
  history_after-AreConfirmed :
      (secs : List Section) (s : Session) (h : History)
      → AreConfirmed h secs (history_after c secs s h)
  unfolding history_after
  history_after-AreConfirmed [] s h = omega arith
  history_after-AreConfirmed (sec ∷ rest) s h = elim (Option-cases (exec c sec s)) [
    | inl panic ↦
        let stays : history_after c (sec ∷ rest) s h ≡ h = rw (panic, history_after) refl in
        subst (AreConfirmed h (sec ∷ rest)) (sym stays) (omega arith)
    | inr ((t, task), here) ↦
        let goes_on : history_after c (sec ∷ rest) s h ≡ history_after c rest t (advance sec s h) =
          rw (here, history_after) refl in
        let later = history_after-AreConfirmed rest t (advance sec s h) in
        subst (AreConfirmed h (sec ∷ rest)) (sym goes_on)
          (omega (arith, later, advance-acked sec rest s h))
  ]

  acked_le :
      (secs : List Section) (s : Session)
      → length (history_after c secs s no_history).acked
        ≤ length (confirmations_of (inputs_of secs))
  acked_le secs s = omega (arith, history_after-AreConfirmed secs s no_history)

  -- In every run of the process from its start, if the events that came for an actor are those that
  -- some rounds of its read loop hand on, at most 2^64: each buffered event is one of them, under its
  -- number, and of those that the loop acknowledged to Slack, no more are gone from the buffer than
  -- the actor has sent confirmations.
  pub run_kept :
      (ref : ActorRef) (es : List Event) (b : Service) (backoff : ℕ) (rounds : List Round)
      → run c es new_service ≡ some b
      → events_of (heard_for ref es) ≡ handed (run_slack backoff rounds)
      → length (handed (run_slack backoff rounds)) ≤ word
      → let buffer = (system_of ref b.systems).shared.session.buffer in
        All (IsReceived (handed (run_slack backoff rounds))) buffer
        × (length (acked_to_slack (run_slack backoff rounds))
            ≤ length buffer + length (confirmations_of (heard_for ref es)))
  run_kept ref es b backoff rounds h came small =
      let texts = handed (run_slack backoff rounds) in
      let (ran, regions, buffered) =
        run-separate c ref es b h (subst (λ raws. length raws ≤ word) (sym came) small) in
      let past = history_after c regions.secs (new_session ref) no_history in
      let received : past.received ≡ texts =
        history_after-received c regions.secs (new_session ref) _ no_history regions.runs
        ∙ sym (events_of-inputs_of regions.secs)
        ∙ ap events_of regions.brought
        ∙ came in
      let confirmed : length past.acked ≤ length (confirmations_of (heard_for ref es)) =
        subst (λ inputs. length past.acked ≤ length (confirmations_of inputs)) regions.brought
          (acked_le regions.secs (new_session ref)) in
      let all = received-le past.received past.acked in
      (
        rw (buffered, sym received) (outstanding-IsReceived past),
        rw (buffered, length-acked_to_slack backoff rounds, sym received) (omega arith),
      )
