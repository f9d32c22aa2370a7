-- ===== src/System/Runs.antt =====
-- The runs of the goroutines of cmd/egress-broker/registry.go, and the hello of a connection.
use substrate_ws_poc.Prelude.{
  ℕ, true, false, List, [], ◌∷◌, some, ◌≡◌, ◌⊎◌, inl, inr, refl, arith, nat_eq, eq_iff, eq_refl,
  Bool-cases, >>=-eq-some, All, All-append, All-map, get_elem?-All, set-All, get_elem?, subst,
}
use substrate_ws_poc.Prelude.Bytes.{Bytes, bytes_eq}
use substrate_ws_poc.Actor.{ActorRef}
use substrate_ws_poc.SocketMode.{Json}
use substrate_ws_poc.Session.State.{Config, deliver, new_session}
use substrate_ws_poc.Session.Ops.{attach}
use substrate_ws_poc.Session.Sections.{Section, exec}
use substrate_ws_poc.Session.Outbox.{elem}
use substrate_ws_poc.System.State.{Shared, runs, serves, ends, Thread, System, new_system}
use substrate_ws_poc.System.Steps.{
  with_session, move, Event, moves, connects, fires, runs_region, is_other, step, run,
}
use substrate_ws_poc.System.Cases.{keeps_sink, exec-KeepsSink}
use substrate_ws_poc.System.Greeting.{
  given_to, begins-given_to, begins, is_ready, is_polite, Greets, Later, Later-is_ready,
  Later-is_polite, KeepsSink-Later, KeepsSink-Greets,
}
use substrate_ws_poc.System.Hello.{move-Moved}

abbrev pub IsPolite : Bytes → Shared → Thread → Type 0
IsPolite hello sh th =
    (is_ready hello sh th.place ≡ true) × (is_polite hello sh th.role th.place ≡ true)

pub record IsGreeting (hello : Bytes) (y : System) : Type 0 where
  pub shared : Greets hello y.shared
  pub threads : All (IsPolite hello y.shared) y.threads

other-keeps_sink : (sec : Section) → is_other sec ≡ true → keeps_sink sec ≡ true
other-keeps_sink (Section.attaches k) h = cc
other-keeps_sink (Section.delivers ids k) h = cc
other-keeps_sink _ h = refl

module _ ⦃json : Json⦄ (c : Config) where
  Later-All :
      (sh sh' : Shared) (threads : List Thread)
      → Later sh sh'
      → All (IsPolite c.hello_frame sh) threads
      → All (IsPolite c.hello_frame sh') threads
  Later-All sh sh' threads l =
      All-map _ _
        (λ th h. (
          Later-is_ready c.hello_frame sh sh' th.place l h.0,
          Later-is_polite c.hello_frame sh sh' th.role th.place l h.1,
        ))
        threads

  -- The shared state once a new connection has called `Attach`.
  abbrev joined : ℕ → Shared → Shared
  joined k sh = record (with_session sh (attach c k sh.session).0) { attached = k ∷ sh.attached }

  -- `Attach` on a new sink: the old ones are never current again.
  attach-Greets :
      (k : ℕ) (sh : Shared)
      → elem k sh.attached ≡ false
      → Greets c.hello_frame sh
      → let sh' = record (with_session sh (attach c k sh.session).0) {
        attached = k ∷ sh.attached;
      } in
        Greets c.hello_frame sh' × Later sh sh'
  unfolding attach elem
  attach-Greets k sh new g =
      let sh' = joined k sh in
      let later : Later sh sh' = record {
        greeted = λ j h. h;
        past = λ j h. ground (arith, eq_iff k j);
        attached = λ j h. ground arith;
      } in
      (
        record {
          opening = g.opening;
          settled = λ j cur set. cc;
          current = λ j cur. ground arith;
          armed = λ j h. later.past j (g.armed j h);
        },
        later,
      )

  attach-IsPolite :
      (k : ℕ) (sh : Shared)
      → let (s, task) = attach c k sh.session in
        IsPolite c.hello_frame
          (record (with_session sh s) { attached = k ∷ sh.attached })
          (record { role = serves k; place = runs task })
  unfolding attach elem
  attach-IsPolite k sh = (
    ground (arith, eq_refl k, eq_refl c.hello_frame),
    ground (arith, eq_refl k, eq_refl c.hello_frame),
  )

  pub step-IsGreeting :
      (e : Event) (y z : System)
      → step c e y ≡ some z
      → IsGreeting c.hello_frame y
      → IsGreeting c.hello_frame z
  unfolding step
  step-IsGreeting (moves i ch) y z e g =
      let (th, at, next) = >>=-eq-some (get_elem? y.threads i) _ e in
      let ((sh, p), moved, out) = >>=-eq-some (move c th.role ch th.place y.shared) _ next in
      let (ready, polite) = get_elem?-All _ y.threads i th g.threads at in
      let m = move-Moved c th.role ch th.place y.shared sh p moved g.shared ready polite in
      subst (IsGreeting c.hello_frame) (ground arith) (record {
        shared = m.greets;
        threads =
            set-All _ y.threads i (record th { place = p }) (m.ready, m.polite)
              (Later-All y.shared sh y.threads m.later g.threads);
      })
  step-IsGreeting (connects k) y z e g = elim (Bool-cases (elem k y.shared.attached)) [
    | inl old ↦ absurd (ground arith)
    | inr new ↦
        let (greets, later) = attach-Greets k y.shared new g.shared in
        let (ready, polite) = attach-IsPolite k y.shared in
        subst (IsGreeting c.hello_frame) (ground arith) (record {
          shared = greets;
          threads =
              All-append (IsPolite c.hello_frame (joined k y.shared)) y.threads
                (record { role = serves k; place = runs (attach c k y.shared.session).1 } ∷ [])
                (Later-All y.shared (joined k y.shared) y.threads later g.threads)
                ((ready, polite), tt);
        })
  ]
  step-IsGreeting (fires k) y z e g = elim (Bool-cases (elem k y.shared.armed)) [
    | inl armed ↦ subst (IsGreeting c.hello_frame) (ground arith) (record {
      shared = g.shared;
      threads =
          All-append (IsPolite c.hello_frame y.shared) y.threads
            (record { role = ends; place = runs (deliver k) } ∷ []) g.threads
            ((g.shared.armed k armed, refl), tt);
    })
    | inr never ↦ absurd (ground arith)
  ]
  step-IsGreeting (runs_region sec) y z e g = elim (Bool-cases (is_other sec)) [
    | inr no_other ↦ absurd (ground arith)
    | inl other ↦
        let ((t, task), here, out) = >>=-eq-some (exec c sec y.shared.session) _ (rw other at e) in
        let v = exec-KeepsSink c sec y.shared.session t task (other-keeps_sink sec other) here in
        subst (IsGreeting c.hello_frame) (ground arith) (record {
          shared = KeepsSink-Greets c.hello_frame y.shared t v g.shared;
          threads =
              Later-All y.shared (with_session y.shared t) y.threads
                (KeepsSink-Later c.hello_frame y.shared t v) g.threads;
        })
  ]

  run-IsGreeting :
      (es : List Event) (y z : System)
      → run c es y ≡ some z
      → IsGreeting c.hello_frame y
      → IsGreeting c.hello_frame z
  unfolding run
  run-IsGreeting [] y z h g = let same : y ≡ z = cc in subst (IsGreeting c.hello_frame) same g
  run-IsGreeting (e ∷ es) y z h g =
      let (m, here, later) = >>=-eq-some (step c e y) _ h in
      run-IsGreeting es m z later (step-IsGreeting e y m here g)

  pub new_system-IsGreeting : (ref : ActorRef) → IsGreeting c.hello_frame (new_system ref)
  unfolding new_system new_session begins elem
  new_system-IsGreeting ref = record {
    shared = record {
      opening = λ k. refl;
      settled = λ k cur set. cc;
      current = λ k cur. cc;
      armed = λ k h. cc;
    };
    threads = ((refl, refl), tt);
  }

  -- In every run of the goroutines from a new session, the frames given to a connection are none, or
  -- the hello and then others.
  pub run-given_to :
      (ref : ActorRef) (es : List Event) (z : System) (k : ℕ)
      → run c es (new_system ref) ≡ some z
      → (given_to k z.shared.log ≡ [])
        ⊎ ((rest : List Bytes) × (given_to k z.shared.log ≡ c.hello_frame ∷ rest))
  run-given_to ref es z k h =
      let g = run-IsGreeting es (new_system ref) z h (new_system-IsGreeting ref) in
      begins-given_to c.hello_frame k z.shared.log (g.shared.opening k)
