-- ===== src/System/Given.antt =====
-- The connections that the goroutines of cmd/egress-broker/registry.go write to.
use substrate_ws_poc.Prelude.{
  ℕ, true, List, [], ◌∷◌, some, ◌≡◌, sym, arith, nat_eq, subst, >>=-eq-some, All, All-map,
  get_elem?, get_elem?-All,
}
use substrate_ws_poc.Actor.{ActorRef}
use substrate_ws_poc.SocketMode.{Json}
use substrate_ws_poc.Session.State.{Config}
use substrate_ws_poc.Session.Outbox.{elem}
use substrate_ws_poc.System.State.{Shared, System, new_system}
use substrate_ws_poc.System.Steps.{move, Event, moves, connects, fires, runs_region, step, run}
use substrate_ws_poc.System.Runs.{IsGreeting, step-IsGreeting, new_system-IsGreeting}
use substrate_ws_poc.System.Traces.{attached_after, Wrote, quiet, wrote, move-Keeps, step-attached}

abbrev pub AreAttached : Shared → Type 0
AreAttached sh = All (λ w. elem w.sink sh.attached ≡ true) sh.log

attached_after-elem :
    (e : Event) (k : ℕ) (ks : List ℕ) → elem k ks ≡ true → elem k (attached_after e ks) ≡ true
unfolding elem
attached_after-elem (connects j) k ks h = ground arith
attached_after-elem (moves i ch) k ks h = h
attached_after-elem (fires j) k ks h = h
attached_after-elem (runs_region sec) k ks h = h

grown :
    (sh sh' : Shared) (e : Event)
    → sh'.attached ≡ attached_after e sh.attached
    → AreAttached sh
    → All (λ w. elem w.sink sh'.attached ≡ true) sh.log
grown sh sh' e more h =
    All-map _ _ (λ w at. rw more (attached_after-elem e w.sink sh.attached at)) sh.log h

Wrote-AreAttached :
    (sh sh' : Shared) (e : Event)
    → sh'.attached ≡ attached_after e sh.attached
    → Wrote sh sh'
    → AreAttached sh
    → AreAttached sh'
Wrote-AreAttached sh sh' e more (quiet same) h = subst (All _) (sym same) (grown sh sh' e more h)
Wrote-AreAttached sh sh' e more (wrote w added at) h =
    subst (All _) (sym added)
      (rw more (attached_after-elem e w.sink sh.attached at), grown sh sh' e more h)

module _ ⦃json : Json⦄ (c : Config) where
  step-Wrote :
      (e : Event) (y z : System)
      → step c e y ≡ some z
      → IsGreeting c.hello_frame y
      → Wrote y.shared z.shared
  unfolding step
  step-Wrote (moves i ch) y z e g =
      let (th, at, next) = >>=-eq-some (get_elem? y.threads i) _ e in
      let ((sh, p), moved, out) = >>=-eq-some (move c th.role ch th.place y.shared) _ next in
      let now : sh ≡ z.shared = ground arith in
      let (ready, polite) = get_elem?-All _ y.threads i th g.threads at in
      subst (Wrote y.shared) now
        ((move-Keeps c th.role ch th.place y.shared sh p moved).wrote_to ready)
  step-Wrote (connects k) y z e g = quiet (ground arith)
  step-Wrote (fires k) y z e g = quiet (ground arith)
  step-Wrote (runs_region sec) y z e g = quiet (ground arith)

  run-AreAttached :
      (es : List Event) (y z : System)
      → run c es y ≡ some z
      → IsGreeting c.hello_frame y
      → AreAttached y.shared
      → AreAttached z.shared
  unfolding run
  run-AreAttached [] y z h g a =
      let same : y ≡ z = ground arith in subst (λ u. AreAttached u.shared) same a
  run-AreAttached (e ∷ es) y z h g a =
      let (m, here, later) = >>=-eq-some (step c e y) _ h in
      run-AreAttached es m z later (step-IsGreeting c e y m here g) (
        Wrote-AreAttached y.shared m.shared e (step-attached c e y m here) (step-Wrote e y m here g)
          a)

  -- In every run from a new session, each frame is given to a connection that was attached.
  pub run_new-AreAttached :
      (ref : ActorRef) (es : List Event) (z : System)
      → run c es (new_system ref) ≡ some z
      → AreAttached z.shared
  unfolding new_system
  run_new-AreAttached ref es z h =
      run-AreAttached es (new_system ref) z h (new_system-IsGreeting c ref) tt
