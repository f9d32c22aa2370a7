-- ===== src/Broker/Separate.antt =====
-- The sessions of cmd/egress-broker/registry.go are separate: what the process does to one actor's
-- session is a run of that session's goroutines.
use substrate_ws_poc.Prelude.{
  ◌≤◌, List, [], ◌∷◌, ◌++◌, some, ◌≡◌, refl, sym, ◌∙◌, ap, subst, arith, >>=-eq-some, length,
}
use substrate_ws_poc.Prelude.Dict.{lookup}
use substrate_ws_poc.Actor.{ActorRef}
use substrate_ws_poc.SocketMode.{Json}
use substrate_ws_poc.Session.State.{Config, word, new_session}
use substrate_ws_poc.Session.Outbox.{outstanding}
use substrate_ws_poc.Session.Runs.{history_after, no_history}
use substrate_ws_poc.System.State.{System, new_system}
use substrate_ws_poc.System.Steps
use substrate_ws_poc.System.Refines.{Input, heard_at, heard_by, events_of, Regions, run-outstanding}
use substrate_ws_poc.Broker.State.{Service, system_of, new_service}
use substrate_ws_poc.Broker.Steps.{Event, step, run}
use substrate_ws_poc.Broker.Moves.{heard_from, Moved, kept, moved, step-Moved}

-- What comes from outside for an actor's session during a run of the process.
unfoldable pub heard_for : ActorRef → List Event → List Input
heard_for ref [] = []
heard_for ref (e ∷ es) = heard_from ref e ++ heard_for ref es

module _ ⦃json : Json⦄ (c : Config) where
  -- A run of one session's goroutines, with what came from outside for it.
  pub record Ran (y z : System) (inputs : List Input) : Type 0 where
    pub events : List Steps.Event
    pub runs : Steps.run c events y ≡ some z
    pub brought : heard_by events ≡ inputs

  Moved-Ran :
      (y m z : System) (first more : List Input)
      → Moved c y m first
      → Ran m z more
      → Ran y z (first ++ more)
  unfolding heard_by
  Moved-Ran y m z _ more (kept same) r = record {
    events = r.events;
    runs = rw (sym same) r.runs;
    brought = r.brought;
  }
  Moved-Ran y m z _ more (moved e takes) r = record {
    events = e ∷ r.events;
    runs = Steps.run_then c e r.events y m z takes r.runs;
    brought = ap (λ rest. heard_at e ++ rest) r.brought;
  }

  pub run-Ran :
      (ref : ActorRef) (es : List Event) (b b' : Service)
      → run c es b ≡ some b'
      → Ran (system_of ref b.systems) (system_of ref b'.systems) (heard_for ref es)
  unfolding run heard_for heard_by
  run-Ran ref [] b b' h =
      let same : b ≡ b' = ground arith in
      record {
        events = [];
        runs = rw same (Steps.run_nil c (system_of ref b'.systems));
        brought = refl;
      }
  run-Ran ref (e ∷ es) b b' h =
      let (m, here, later) = >>=-eq-some (step c e b) _ h in
      Moved-Ran (system_of ref b.systems) (system_of ref m.systems) (system_of ref b'.systems)
        (heard_from ref e) (heard_for ref es) (step-Moved c ref e b m here)
        (run-Ran ref es m b' later)

  pub system_of-new : (ref : ActorRef) → system_of ref new_service.systems ≡ new_system ref
  unfolding system_of new_service lookup
  system_of-new ref = refl

  pub run_new-Ran :
      (ref : ActorRef) (es : List Event) (b : Service)
      → run c es new_service ≡ some b
      → Ran (new_system ref) (system_of ref b.systems) (heard_for ref es)
  run_new-Ran ref es b h =
      subst (λ s. Ran s (system_of ref b.systems) (heard_for ref es)) (system_of-new ref)
        (run-Ran ref es new_service b h)

  -- In every run of the process from its start, for every actor: its session and goroutines are those
  -- that a run of a new session's goroutines leads to, whose events and confirmations are the ones
  -- that came for this actor, in the same order, and if these are at most 2^64 events, its buffer
  -- holds what the history of that session's regions leaves.
  pub run-separate :
      (ref : ActorRef) (es : List Event) (b : Service)
      → run c es new_service ≡ some b
      → length (events_of (heard_for ref es)) ≤ word
      → let y = system_of ref b.systems in
        Ran (new_system ref) y (heard_for ref es)
        × (r : Regions c (new_session ref) y.shared.session (heard_for ref es))
        × (y.shared.session.buffer
            ≡ outstanding (history_after c r.secs (new_session ref) no_history))
  run-separate ref es b h small =
      let y = system_of ref b.systems in
      let r = run_new-Ran ref es b h in
      let (regions, buffer) =
        run-outstanding c ref r.events y r.runs
          (subst (λ inputs. length (events_of inputs) ≤ word) (sym r.brought) small) in
      (
        r,
        record { secs = regions.secs; runs = regions.runs; brought = regions.brought ∙ r.brought },
        buffer,
      )
