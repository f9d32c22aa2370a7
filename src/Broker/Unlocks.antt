-- ===== src/Broker/Unlocks.antt =====
-- The goroutine that holds the mutex `sinkWrite` of an actor's session in cmd/egress-broker/registry.go
-- goes on in the process until it frees it.
use substrate_ws_poc.Prelude.{
  ℕ, zero, suc, true, false, List, [], ◌∷◌, ◌++◌, some, ◌≡◌, refl, sym, ◌∙◌, subst, arith, nat_eq,
  eq_refl, replicate, Option-cases, Bool-cases, inl, inr, >>=-eq-some, All, ◌==◌,
}
use substrate_ws_poc.Prelude.Dict.{lookup, insert, lookup-insert_self}
use substrate_ws_poc.Prelude.Bytes.{Bytes, bytes_eq}
use substrate_ws_poc.Actor.{ActorRef, actor_eq}
use substrate_ws_poc.SocketMode.{Json}
use substrate_ws_poc.Session.State.{Config}
use substrate_ws_poc.Session.Outbox.{elem}
use substrate_ws_poc.System.State.{Write, System, new_system}
use substrate_ws_poc.System.Steps.{moves, goes}
use substrate_ws_poc.System.Steps
use substrate_ws_poc.System.Greeting.{given_to}
use substrate_ws_poc.System.Given.{run_new-AreAttached}
use substrate_ws_poc.System.Progress.{run-Frees}
use substrate_ws_poc.Broker.State.{Service, new_service, system_of}
use substrate_ws_poc.Broker.Steps.{Event, acts, is_own, step, run}
use substrate_ws_poc.Broker.Moves.{system_of-lookup}
use substrate_ws_poc.Broker.Separate.{run_new-Ran}
use substrate_ws_poc.Broker.Leads.{is_of, Leads, begins, then_takes, at_known}

unattached-given_to :
    (k : ℕ) (ks : List ℕ) (log : List Write)
    → elem k ks ≡ false
    → All (λ w. elem w.sink ks ≡ true) log
    → given_to k log ≡ []
unfolding given_to
unattached-given_to k ks [] new h = refl
unattached-given_to k ks (w ∷ log) new h =
    let other : (w.sink == k) ≡ false = ground (arith, h.0) in
    rw other (unattached-given_to k ks log new h.1)

module _ ⦃json : Json⦄ (c : Config) where
  pub run_append :
      (es fs : List Event) (b m z : Service)
      → run c es b ≡ some m
      → run c fs m ≡ some z
      → run c (es ++ fs) b ≡ some z
  unfolding run
  run_append [] fs b m z h g = let same : m ≡ b = ground arith in rw (sym same) g
  run_append (e ∷ es) fs b m z h g =
      let (u, here, later) = >>=-eq-some (step c e b) _ h in
      rw here (run_append es fs u m z later g)

  -- No frame has been given to a connection that the actor's session does not know.
  pub run_new-given_to :
      (ref : ActorRef) (k : ℕ) (es : List Event) (b : Service)
      → run c es new_service ≡ some b
      → elem k (system_of ref b.systems).shared.attached ≡ false
      → given_to k (system_of ref b.systems).shared.log ≡ []
  run_new-given_to ref k es b h new =
      let y = system_of ref b.systems in
      let r = run_new-Ran c ref es b h in
      unattached-given_to k y.shared.attached y.shared.log new
        (run_new-AreAttached c ref r.events y r.runs)

module _ ⦃json : Json⦄ (c : Config) (ref : ActorRef) (n k : ℕ) where
  pub then_leads :
      (b m z : Service) → Leads c ref n k b m → Leads c ref n k m z → Leads c ref n k b z
  then_leads b m _ l begins = l
  then_leads b m _ l (then_takes u z e later of_actor takes) =
      then_takes u z e (then_leads b m u l later) of_actor takes

  -- Steps of the actor alone lead to a state in which its session is this one.
  pub record Acted (b : Service) (z : System) : Type 0 where
    pub last : Service
    pub events : List Event
    pub runs : run c events b ≡ some last
    pub leads : Leads c ref n k b last
    pub handlers : last.handlers ≡ b.handlers
    pub sinks : last.sinks ≡ b.sinks
    pub known : system_of ref last.systems ≡ z

  acts_alone :
      (i : ℕ) (ids : ℕ → Bytes) (steps : ℕ) (b : Service) (y z : System)
      → lookup ref b.systems ≡ some y
      → Steps.run c (replicate steps (moves i (goes ids))) y ≡ some z
      → Acted b z
  unfolding step run is_of is_own Steps.run
  acts_alone i ids zero b y z known h =
      let same : y ≡ z = ground arith in
      record {
        last = b;
        events = [];
        runs = refl;
        leads = begins;
        handlers = refl;
        sinks = refl;
        known = system_of-lookup ref b.systems y known ∙ same;
      }
  acts_alone i ids (suc steps) b y z known h =
      let (m, takes, later) = >>=-eq-some (Steps.step c (moves i (goes ids)) y) _ h in
      let next = record b { systems = insert ref m b.systems } in
      let here : step c (acts ref (moves i (goes ids))) b ≡ some next =
        at_known c ref n k (moves i (goes ids)) b y m known takes in
      let a = acts_alone i ids steps next m z (lookup-insert_self ref m b.systems) later in
      record {
        last = a.last;
        events = acts ref (moves i (goes ids)) ∷ a.events;
        runs = rw here a.runs;
        leads =
            then_leads b next a.last
              (then_takes b next (acts ref (moves i (goes ids))) begins (eq_refl ref) here) a.leads;
        handlers = a.handlers;
        sinks = a.sinks;
        known = a.known;
      }

  -- Steps of the actor alone free the mutex of its session, which they leave as it is.
  pub run-Acted :
      (es : List Event) (b : Service) (ids : ℕ → Bytes)
      → run c es new_service ≡ some b
      → (z : System) × Acted b z
        × (z.shared.locked ≡ false)
        × (z.shared.session ≡ (system_of ref b.systems).shared.session)
  unfolding system_of run new_system
  run-Acted es b ids h = elim (Bool-cases (system_of ref b.systems).shared.locked) [
    | inr free ↦ (
      system_of ref b.systems,
      record {
        last = b;
        events = [];
        runs = refl;
        leads = begins;
        handlers = refl;
        sinks = refl;
        known = refl;
      },
      free,
      refl,
    )
    | inl held ↦
        let r = run_new-Ran c ref es b h in
        let (i, bound, f) = run-Frees c ref r.events (system_of ref b.systems) ids r.runs held in
        elim (Option-cases (lookup ref b.systems)) [
          | inl unknown ↦ absurd (ground arith)
          | inr (y, known) ↦
              let same = system_of-lookup ref b.systems y known in
              (
                f.last,
                acts_alone i ids f.steps b y f.last known (
                    subst
                      (λ u. Steps.run c (replicate f.steps (moves i (goes ids))) u ≡ some f.last)
                      same f.runs),
                f.freed,
                f.kept,
              )
        ]
  ]
