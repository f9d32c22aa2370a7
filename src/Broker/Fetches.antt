-- ===== src/Broker/Fetches.antt =====
-- What an actor that comes back to cmd/egress-broker gets of the events that its read loop handed on:
-- runSlack, the session and the handlers together.
use substrate_ws_poc.Prelude.{
  ℕ, nat_eq, List, ◌∷◌, ◌++◌, none, some, ◌≡◌, ◌≢◌, sym, ap, ◌∙◌, subst, length, All,
}
use substrate_ws_poc.Prelude.Bytes.{Bytes}
use substrate_ws_poc.Prelude.Dict.{lookup}
use substrate_ws_poc.Actor.{ActorRef, actor_eq}
use substrate_ws_poc.SocketMode.{Json, JsonLaws}
use substrate_ws_poc.SocketMode.Rewrite.{IsEventFrame}
use substrate_ws_poc.Session.State.{Config}
use substrate_ws_poc.Session.Total.{AreRewritten, rewritten_frames-AreRewritten}
use substrate_ws_poc.Slack.Loop.{Round, run_slack}
use substrate_ws_poc.Slack.Acks.{handed, handed-IsEventFrame}
use substrate_ws_poc.Server.Open.{World, OpenRequest, golden_atespace}
use substrate_ws_poc.System.Delivery.{Delivered}
use substrate_ws_poc.System.Refines.{events_of}
use substrate_ws_poc.Broker.State.{Service, new_service, system_of}
use substrate_ws_poc.Broker.Steps.{Event, caller_of, run}
use substrate_ws_poc.Broker.Separate.{heard_for}
use substrate_ws_poc.Broker.Told.{run_new-Told}
use substrate_ws_poc.Broker.Leads.{Leads}
use substrate_ws_poc.Broker.Unlocks.{run_append, run_new-given_to, then_leads, run-Acted}
use substrate_ws_poc.Broker.Wakes.{unattached, wakes-Delivered}

module _ ⦃json : Json⦄ (laws : JsonLaws json) (c : Config) (ref : ActorRef) (k : ℕ) where
  -- If encoding/json behaves as documented, then in every state that the process reaches from its
  -- start, if the events that came for an actor are those that some rounds of its read loop hand on,
  -- and this actor, which is not the golden template, asks for a connection: steps of its own
  -- requests and of its session's goroutines alone, in which no write fails, lead to a state in which
  -- this connection has been given the hello and then a frame for each buffered event, in order, which
  -- has a new id and the other members of the event; the connection is settled, every event is kept
  -- and the mutex of writers is free.
  pub wakes-AreRewritten :
      (token : Bytes) (es : List Event) (b : Service) (w : World) (r : OpenRequest)
      (ids : ℕ → Bytes) (backoff : ℕ) (rounds : List Round)
      → run c es new_service ≡ some b
      → events_of (heard_for ref es) ≡ handed (run_slack backoff rounds)
      → caller_of w r ≡ some (ref, token)
      → ref.atespace ≢ golden_atespace
      → lookup k b.sinks ≡ none
      → (b' : Service) × (frames : List Bytes) × AreRewritten ids 0
          (system_of ref b.systems).shared.session.buffer
          frames
        × Leads c ref (length b.handlers) k b b'
        × Delivered c k frames (system_of ref b.systems) (system_of ref b'.systems)
  wakes-AreRewritten token es b w r ids backoff rounds h came who real fresh =
      let y = system_of ref b.systems in
      let n = length b.handlers in
      let events : All IsEventFrame (events_of (heard_for ref es)) =
        subst (All IsEventFrame) (sym came) (handed-IsEventFrame backoff rounds) in
      let v = run_new-Told c IsEventFrame ref es b h events in
      let (frames, built, good) =
        rewritten_frames-AreRewritten laws ids 0 y.shared.session.buffer v.shares.buffer in
      let (z, a, free, kept) = run-Acted c ref n k es b ids h in
      let all = run_append c es a.events new_service b a.last h a.runs in
      let new : lookup k a.last.sinks ≡ none = rw a.sinks fresh in
      let (b', leads, d) =
        wakes-Delivered c ref k token (es ++ a.events) a.last w r ids frames all who real new
          (rw a.known free) (rw (a.known, kept) built) in
      let later : Leads c ref n k a.last b' =
        subst (λ j. Leads c ref j k a.last b') (ap length a.handlers) leads in
      let before = run_new-given_to c ref k es b h (unattached c ref k es b h fresh) in
      let middle =
        run_new-given_to c ref k (es ++ a.events) a.last all
          (unattached c ref k (es ++ a.events) a.last all new) in
      (
        b',
        frames,
        good,
        then_leads c ref n k b a.last b' a.leads later,
        record {
          given = d.given ∙ ap (λ fs. fs ++ c.hello_frame ∷ frames) (middle ∙ sym before);
          settled = d.settled;
          kept = d.kept ∙ ap (λ u. u.shared.session.buffer) a.known ∙ ap (λ s. s.buffer) kept;
          free = d.free;
        },
      )
