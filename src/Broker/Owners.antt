-- ===== src/Broker/Owners.antt =====
-- Who gets an actor's events: the callers of `handleConnectionsOpen` in cmd/egress-broker/server.go
-- and the connections that `handleActorSocket` there has upgraded for them.
use substrate_ws_poc.Prelude.{ℕ, true, List, some, ◌≡◌, nat_eq, get_elem?, get_elem?-All}
use substrate_ws_poc.Prelude.Bytes.{Bytes, bytes_eq}
use substrate_ws_poc.Prelude.Dict.{lookup, lookup-All}
use substrate_ws_poc.Actor.{ActorRef, actor_eq}
use substrate_ws_poc.SocketMode.{Json}
use substrate_ws_poc.Session.State.{Config}
use substrate_ws_poc.System.State.{Write}
use substrate_ws_poc.System.Given.{run_new-AreAttached}
use substrate_ws_poc.Broker.State.{Service, new_service, system_of}
use substrate_ws_poc.Broker.Steps.{Event, run}
use substrate_ws_poc.Broker.Separate.{run_new-Ran}
use substrate_ws_poc.Broker.Backed.{asked_by, is_sink-lookup}
use substrate_ws_poc.Broker.Presents.{Presents, asked_by-asked_with, run-Presents}
use substrate_ws_poc.Broker.Reached.{run_new-IsOwned}

module _ ⦃json : Json⦄ (c : Config) where
  -- In every run of the process from its start: a connection to which an actor's session gave a
  -- frame was upgraded for that actor, and so for no other, and the actor had been identified as the
  -- caller of a bootstrap request.
  pub run-owners :
      (ref : ActorRef) (es : List Event) (b : Service) (i : ℕ) (w : Write)
      → run c es new_service ≡ some b
      → get_elem? (system_of ref b.systems).shared.log i ≡ some w
      → (lookup w.sink b.sinks ≡ some ref) × (token : Bytes) × Presents ref token es
  run-owners ref es b i w h at =
      let (k, v) = run_new-IsOwned c es b h in
      let y = system_of ref b.systems in
      let r = run_new-Ran c ref es b h in
      let attached =
        get_elem?-All _ y.shared.log i w (run_new-AreAttached c ref r.events y r.runs) at in
      let mine : lookup w.sink b.sinks ≡ some ref =
        is_sink-lookup ref w.sink b.sinks (v.attached ref w.sink attached) in
      let by = lookup-All (λ s. asked_by s.1 b.asked ≡ true) w.sink ref b.sinks k.sinks mine in
      let (token, with) = asked_by-asked_with ref b.asked by in
      (mine, token, run-Presents c ref token es b h with)
