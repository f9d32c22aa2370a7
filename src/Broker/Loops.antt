-- ===== src/Broker/Loops.antt =====
-- The read loops of the process: `runSlack` of cmd/egress-broker/registry.go, which `EnsureStarted`
-- starts for an actor.
use substrate_ws_poc.Prelude.{
  true, List, [], ◌∷◌, ◌++◌, some, ◌≡◌, ◌≢◌, ◌⊎◌, refl, ap, ◌∙◌, arith, ◌==◌, nat_eq, eq_iff,
  Bool-cases, inl, inr, >>=-eq-some,
}
use substrate_ws_poc.Prelude.Bytes.{bytes_eq}
use substrate_ws_poc.Actor.{ActorRef, actor_eq}
use substrate_ws_poc.SocketMode.{Json}
use substrate_ws_poc.Session.State.{Config}
use substrate_ws_poc.Server.Open.{golden_atespace}
use substrate_ws_poc.System.Steps.{
  moves, connects, fires, runs_region, goes, fails, beats, confirms, leaves, hears,
}
use substrate_ws_poc.System.Steps
use substrate_ws_poc.System.Refines.{Input, event, confirmation, heard_at, events_of}
use substrate_ws_poc.Broker.State.{Service, new_service, system_of, loops_of}
use substrate_ws_poc.Broker.Steps.{Event, opens, enters, handles, acts, is_own, step, run}
use substrate_ws_poc.Broker.Moves.{heard_from}
use substrate_ws_poc.Broker.Separate.{heard_for}
use substrate_ws_poc.Broker.Backed.{IsBacked}
use substrate_ws_poc.Broker.Callers.{step-IsBacked}
use substrate_ws_poc.Broker.Owned.{is_once, IsOwned}
use substrate_ws_poc.Broker.Presents.{Presents, run-Presents}
use substrate_ws_poc.Broker.Reached.{
  step-IsOwned, new_service-IsBacked, new_service-IsOwned, run_new-IsOwned,
}

events_of-append : (xs ys : List Input) → events_of (xs ++ ys) ≡ events_of xs ++ events_of ys
unfolding events_of
events_of-append [] ys = refl
events_of-append (event raw ∷ xs) ys = ap (◌∷◌ raw) (events_of-append xs ys)
events_of-append (confirmation id ∷ xs) ys = events_of-append xs ys

-- Without a read loop no event comes.
own-events_of :
    (ref : ActorRef) (loops : List ActorRef) (e : Steps.Event)
    → is_own ref loops e ≡ true
    → loops_of ref loops ≡ 0
    → events_of (heard_at e) ≡ []
unfolding is_own events_of
own-events_of ref loops (moves i (hears raw fresh)) own none_there = ground arith
own-events_of ref loops (moves i (goes ids)) own none_there = refl
own-events_of ref loops (moves i fails) own none_there = refl
own-events_of ref loops (moves i beats) own none_there = refl
own-events_of ref loops (moves i (confirms id)) own none_there = refl
own-events_of ref loops (moves i leaves) own none_there = refl
own-events_of ref loops (connects k) own none_there = refl
own-events_of ref loops (fires k) own none_there = refl
own-events_of ref loops (runs_region sec) own none_there = refl

-- The golden template has no read loop.
golden-loops :
    (ref : ActorRef) (b : Service)
    → IsOwned b
    → ref.atespace ≡ golden_atespace
    → loops_of ref b.loops ≡ 0
golden-loops ref b v golden =
    let s = (system_of ref b.systems).shared.session in
    elim (Bool-cases s.started) [
      | inr never ↦ v.loop ref ∙ ap is_once never
      | inl started ↦
          let given = v.token ref started in
          absurd (ground (arith, eq_iff ref.atespace golden_atespace))
    ]

module _ ⦃json : Json⦄ (c : Config) where
  -- In every run of the process from its start, an actor has no read loop, or it has one, the actor
  -- is not the golden template, and its session's token is not empty and came with a bootstrap
  -- request whose caller was identified as this actor.
  pub run-loops :
      (ref : ActorRef) (es : List Event) (b : Service)
      → run c es new_service ≡ some b
      → let token = (system_of ref b.systems).shared.session.app_token in
        (loops_of ref b.loops ≡ 0)
        ⊎ ((loops_of ref b.loops ≡ 1)
            × (ref.atespace ≢ golden_atespace)
            × (token ≢ [])
            × Presents ref token es)
  run-loops ref es b h =
      let (k, v) = run_new-IsOwned c es b h in
      let s = (system_of ref b.systems).shared.session in
      elim (Bool-cases s.started) [
        | inr never ↦ inl (v.loop ref ∙ ap is_once never)
        | inl started ↦
            let given = v.token ref started in
            inr (
              v.loop ref ∙ ap is_once started,
              λ golden. ground (arith, eq_iff ref.atespace golden_atespace),
              λ empty. ground (arith, eq_iff s.app_token []),
              run-Presents c ref s.app_token es b h (ground arith),
            )
      ]

  step-golden :
      (ref : ActorRef) (e : Event) (b b' : Service)
      → step c e b ≡ some b'
      → IsOwned b
      → ref.atespace ≡ golden_atespace
      → events_of (heard_from ref e) ≡ []
  unfolding step events_of
  step-golden ref (opens w r) b b' h v golden = refl
  step-golden ref (enters t n up k) b b' h v golden = refl
  step-golden ref (handles i t n) b b' h v golden = refl
  step-golden ref (acts a e) b b' h v golden = elim (Bool-cases (a == ref)) [
    | inr differs ↦ rw differs refl
    | inl same ↦ elim (Bool-cases (is_own a b.loops e)) [
      | inr other ↦ absurd (ground arith)
      | inl own ↦
          let is : a ≡ ref = (eq_iff a ref).0 same in
          rw same (own-events_of a b.loops e own (rw is (golden-loops ref b v golden)))
    ]
  ]

  run_from-golden :
      (ref : ActorRef) (es : List Event) (b b' : Service)
      → run c es b ≡ some b'
      → IsBacked b
      → IsOwned b
      → ref.atespace ≡ golden_atespace
      → events_of (heard_for ref es) ≡ []
  unfolding run heard_for events_of
  run_from-golden ref [] b b' h k v golden = refl
  run_from-golden ref (e ∷ es) b b' h k v golden =
      let (m, here, later) = >>=-eq-some (step c e b) _ h in
      let rest =
        run_from-golden ref es m b' later (step-IsBacked c e b m here k).0
          (step-IsOwned c e b m here k v) golden in
      events_of-append (heard_from ref e) (heard_for ref es)
      ∙ rw (step-golden ref e b m here v golden) rest

  -- In every run of the process from its start, no event of Slack comes to a session of the golden
  -- template.
  run-golden :
      (ref : ActorRef) (es : List Event) (b : Service)
      → run c es new_service ≡ some b
      → ref.atespace ≡ golden_atespace
      → events_of (heard_for ref es) ≡ []
  run-golden ref es b h golden =
      run_from-golden ref es new_service b h new_service-IsBacked new_service-IsOwned golden
