-- ===== src/Broker/Starts.antt =====
-- What a call of `EnsureStarted` (cmd/egress-broker/registry.go) keeps, for its actor and for the
-- others.
use substrate_ws_poc.Prelude.{
  ◌+◌, true, false, ◌||◌, List, some, ◌≡◌, refl, sym, ap, ◌∙◌, subst, arith, if◌then◌else◌, ◌==◌,
  nat_eq, eq_iff, Bool-cases, inl, inr,
}
use substrate_ws_poc.Prelude.Bytes.{Bytes, bytes_eq}
use substrate_ws_poc.Actor.{ActorRef, actor_eq}
use substrate_ws_poc.SocketMode.{Json}
use substrate_ws_poc.Session.State.{Config, Session}
use substrate_ws_poc.Session.Ops.{ensure_started}
use substrate_ws_poc.Session.Sections.{starts, exec}
use substrate_ws_poc.System.State.{System}
use substrate_ws_poc.System.Steps.{connects, runs_region, with_session}
use substrate_ws_poc.System.Steps
use substrate_ws_poc.System.Traces.{step-attached}
use substrate_ws_poc.Broker.State.{Handler, Service, system_of, loops_of}
use substrate_ws_poc.Broker.Steps.{started_by}
use substrate_ws_poc.Broker.Moves.{system_of-insert, system_of-lookup, Starting}
use substrate_ws_poc.Broker.Backed.{is_given}
use substrate_ws_poc.Broker.Owned.{is_once, IsOwned}

start-once :
    (ref other : ActorRef) (token : Bytes) (s : Session) (loops : List ActorRef)
    → loops_of other (started_by ref (ensure_started token s).1 loops)
      ≡ (if ref == other then (if s.started || s.closed then 0 else 1) else 0)
        + loops_of other loops
unfolding ensure_started loops_of
start-once ref other token s loops = ground arith

ensure_started-token : (token : Bytes) (s : Session) → (ensure_started token s).0.app_token ≡ token
unfolding ensure_started
ensure_started-token token s = ground arith

ensure_started-started :
    (token : Bytes) (s : Session)
    → is_once (ensure_started token s).0.started
      ≡ (if s.started || s.closed then 0 else 1) + is_once s.started
unfolding ensure_started
ensure_started-started token s = ground arith

module _ ⦃json : Json⦄ (c : Config) where
  starts-session :
      (token : Bytes) (y z : System)
      → Steps.step c (runs_region (starts token)) y ≡ some z
      → z.shared.session ≡ (ensure_started token y.shared.session).0
  unfolding Steps.step exec
  starts-session token y z e = ground arith

  -- After `EnsureStarted` for one actor, from what holds of that actor and of the others.
  module _ (ref : ActorRef) (token : Bytes) (b b' : Service) (h' : Handler)
      (s : Starting c ref token b b' h') (given : is_given ref token b.asked ≡ true)
      (v : IsOwned b) where
    s-before : system_of ref b.systems ≡ s.taken.before
    s-before = system_of-lookup ref b.systems s.taken.before s.taken.known

    s-after :
        (other : ActorRef)
        → system_of other b'.systems
          ≡ (if ref == other then s.taken.after else system_of other b.systems)
    s-after other = rw (s.now, s.taken.now) (system_of-insert ref other s.taken.after b.systems)

    s-system : s.system ≡ s.taken.before
    s-system = ground (arith, s.known, s.taken.known)

    -- The actor's session after the call.
    s-session :
        s.taken.after.shared.session ≡ (ensure_started token s.taken.before.shared.session).0
    s-session = starts-session token s.taken.before s.taken.after s.taken.takes

    s-loops :
        (other : ActorRef)
        → loops_of other b'.loops
          ≡ (if ref == other
              then (if s.taken.before.shared.session.started || s.taken.before.shared.session.closed
                  then 0
                  else 1)
              else 0)
            + loops_of other b.loops
    s-loops other =
        rw (s.now, s-system) (start-once ref other token s.taken.before.shared.session b.loops)

    starting-other :
        (other : ActorRef)
        → (ref == other) ≡ false
        → system_of other b'.systems ≡ system_of other b.systems
    starting-other other differs = s-after other ∙ rw differs refl

    starting_self :
        (other : ActorRef) → (ref == other) ≡ true → system_of other b'.systems ≡ s.taken.after
    starting_self other same = s-after other ∙ rw same refl

    before_self :
        (other : ActorRef) → (ref == other) ≡ true → system_of other b.systems ≡ s.taken.before
    before_self other same = rw (← (eq_iff ref other).0 same) s-before

    starting-attached :
        (other : ActorRef)
        → (system_of other b'.systems).shared.attached ≡ (system_of other b.systems).shared.attached
    starting-attached other = elim (Bool-cases (ref == other)) [
      | inr differs ↦ ap (λ y. y.shared.attached) (starting-other other differs)
      | inl same ↦
          rw (starting_self other same, before_self other same)
            (step-attached c (runs_region (starts token)) s.taken.before s.taken.after
              s.taken.takes)
    ]

    starting-loop :
        (other : ActorRef)
        → loops_of other b'.loops ≡ is_once (system_of other b'.systems).shared.session.started
    starting-loop other = elim (Bool-cases (ref == other)) [
      | inr differs ↦
          rw (s-loops other, differs, starting-other other differs) (ground (arith, v.loop other))
      | inl same ↦
          let before : loops_of other b.loops ≡ is_once s.taken.before.shared.session.started =
            v.loop other ∙ ap (λ y. is_once y.shared.session.started) (before_self other same) in
          rw (s-loops other, same, starting_self other same, s-session, before)
            (sym (ensure_started-started token s.taken.before.shared.session))
    ]

    starting-token :
        (other : ActorRef)
        → (system_of other b'.systems).shared.session.started ≡ true
        → is_given other (system_of other b'.systems).shared.session.app_token b.asked ≡ true
    starting-token other h = elim (Bool-cases (ref == other)) [
      | inr differs ↦
          rw (starting-other other differs) (v.token other (rw (starting-other other differs) at h))
      | inl same ↦
          let now : s.taken.after.shared.session.app_token ≡ token =
            ap (λ t. t.app_token) s-session
            ∙ ensure_started-token token s.taken.before.shared.session in
          rw (starting_self other same, now, ← (eq_iff ref other).0 same) given
    ]

    pub starting-IsOwned : IsOwned b'
    starting-IsOwned = record {
      attached = λ other k h.
          rw (s.now, s.taken.now) (v.attached other k (rw (starting-attached other) at h));
      loop = starting-loop;
      token = λ other h.
          subst (λ a. is_given other (system_of other b'.systems).shared.session.app_token a ≡ true)
            (sym (ap (λ u. u.asked) s.now ∙ ap (λ u. u.asked) s.taken.now))
            (starting-token other h);
    }
