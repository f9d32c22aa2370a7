-- ===== src/Broker/Told.antt =====
-- What the connections that `handleActorSocket` of cmd/egress-broker/server.go upgraded are given by
-- the sessions of registry.go.
use substrate_ws_poc.Prelude.{
  ℕ, suc, List, [], ◌∷◌, some, ◌≡◌, refl, sym, subst, arith, nat_eq, All, get_elem?, get_elem?-All,
}
use substrate_ws_poc.Prelude.Bytes.{Bytes}
use substrate_ws_poc.Prelude.Dict.{lookup}
use substrate_ws_poc.Actor.{ActorRef, actor_eq}
use substrate_ws_poc.SocketMode.{Json}
use substrate_ws_poc.Session.State.{Config}
use substrate_ws_poc.Session.Texts.{IsFrameOf}
use substrate_ws_poc.System.State.{Write}
use substrate_ws_poc.System.Refines.{events_of}
use substrate_ws_poc.System.Faithful.{IsFaithful, run_new-IsFaithful}
use substrate_ws_poc.Broker.State.{Service, new_service, system_of}
use substrate_ws_poc.Broker.Steps.{Event, run}
use substrate_ws_poc.Broker.Separate.{heard_for, run_new-Ran}
use substrate_ws_poc.Broker.Owners.{run-owners}

-- The text is one of those that Slack sent to the actor's read loop.
abbrev pub CameFor : ActorRef → List Event → Bytes → Type 0
CameFor ref es raw = (j : ℕ) × (get_elem? (events_of (heard_for ref es)) j ≡ some raw)

All-elements :
    (P : Bytes → Type 0) (rs : List Bytes)
    → ((j : ℕ) (raw : Bytes) → get_elem? rs j ≡ some raw → P raw)
    → All P rs
All-elements P [] h = tt
All-elements P (r ∷ rs) h = (h 0 r refl, All-elements P rs (λ j raw at. h (suc j) raw at))

module _ ⦃json : Json⦄ (c : Config) where
  -- An actor's session and goroutines, for a property of the texts that came for it.
  pub run_new-Told :
      (P : Bytes → Type 0) (ref : ActorRef) (es : List Event) (b : Service)
      → run c es new_service ≡ some b
      → All P (events_of (heard_for ref es))
      → IsFaithful c.hello_frame P (system_of ref b.systems)
  run_new-Told P ref es b h came =
      let r = run_new-Ran c ref es b h in
      run_new-IsFaithful c P ref r.events (system_of ref b.systems) r.runs
        (subst (λ inputs. All P (events_of inputs)) (sym r.brought) came)

  -- In every run of the process from its start, whichever session wrote to it: a frame that was given
  -- to a connection that had been upgraded for an actor is the hello, or a text that Slack sent to
  -- that actor's own read loop, under a new id.
  pub run-told :
      (a ref : ActorRef) (es : List Event) (b : Service) (i : ℕ) (w : Write)
      → run c es new_service ≡ some b
      → get_elem? (system_of ref b.systems).shared.log i ≡ some w
      → lookup w.sink b.sinks ≡ some a
      → IsFrameOf c.hello_frame (CameFor a es) w.frame
  run-told a ref es b i w h at mine =
      let (owner, token, asks) = run-owners c ref es b i w h at in
      let same : ref ≡ a = ground (arith, owner, mine) in
      let came : All (CameFor ref es) (events_of (heard_for ref es)) =
        All-elements (CameFor ref es) (events_of (heard_for ref es)) (λ j raw here. (j, here)) in
      let v = run_new-Told (CameFor ref es) ref es b h came in
      subst (λ r. IsFrameOf c.hello_frame (CameFor r es) w.frame) same
        (get_elem?-All _ (system_of ref b.systems).shared.log i w v.shares.log at)
