-- ===== src/Broker/Owned.antt =====
-- What belongs to whom in every state of the process: a session's connections were upgraded for its
-- actor, and its token came from its actor, for at most one read loop.
use substrate_ws_poc.Prelude.{
  ℕ, Bool, true, false, List, ◌≡◌, refl, ◌∙◌, arith, if◌then◌else◌, ◌==◌, nat_eq, eq_iff,
  Bool-cases, inl, inr,
}
use substrate_ws_poc.Prelude.Bytes.{bytes_eq}
use substrate_ws_poc.Actor.{ActorRef, actor_eq}
use substrate_ws_poc.SocketMode.{Json}
use substrate_ws_poc.Session.State.{Config}
use substrate_ws_poc.Session.Sections.{starts}
use substrate_ws_poc.Session.Outbox.{elem}
use substrate_ws_poc.System.State.{System}
use substrate_ws_poc.System.Steps.{moves, connects, fires, runs_region, hears}
use substrate_ws_poc.System.Steps
use substrate_ws_poc.System.Traces.{
  is_start_step, attached_after, SameLoop, step-SameLoop, step-attached,
}
use substrate_ws_poc.Broker.State.{Service, system_of, loops_of}
use substrate_ws_poc.Broker.Steps.{is_own}
use substrate_ws_poc.Broker.Moves.{system_of-insert, system_of-lookup, At}
use substrate_ws_poc.Broker.Backed.{is_sink, is_given, Grows}

abbrev pub is_once : Bool → ℕ
is_once started = if started then 1 else 0

pub record IsOwned (b : Service) : Type 0 where
  pub attached :
      (ref : ActorRef) (k : ℕ)
      → elem k (system_of ref b.systems).shared.attached ≡ true
      → is_sink ref k b.sinks ≡ true
  pub loop :
      (ref : ActorRef)
      → loops_of ref b.loops ≡ is_once (system_of ref b.systems).shared.session.started
  pub token :
      (ref : ActorRef)
      → (system_of ref b.systems).shared.session.started ≡ true
      → is_given ref (system_of ref b.systems).shared.session.app_token b.asked ≡ true

-- The same connections, token and read loop.
pub record Alike (y z : System) : Type 0 where
  pub attached : z.shared.attached ≡ y.shared.attached
  pub loop : SameLoop y.shared.session z.shared.session

pub Alike-same : (y z : System) → z ≡ y → Alike y z
Alike-same y z e = rw e (record { attached = refl; loop = record { started = refl; token = refl } })

pub Alike-IsOwned :
    (b b' : Service)
    → Grows b b'
    → b'.loops ≡ b.loops
    → ((ref : ActorRef) → Alike (system_of ref b.systems) (system_of ref b'.systems))
    → IsOwned b
    → IsOwned b'
Alike-IsOwned b b' g loops alike v = record {
  attached = λ ref k h. g.sinks ref k (v.attached ref k (rw (alike ref).attached at h));
  loop = λ ref. rw (loops, (alike ref).loop.started) (v.loop ref);
  token = λ ref h.
      let before = v.token ref (rw (alike ref).loop.started at h) in
      rw (alike ref).loop.token
        (ground (arith, g.with ref (system_of ref b.systems).shared.session.app_token));
}

own-is_start_step :
    (ref : ActorRef) (loops : List ActorRef) (e : Steps.Event)
    → is_own ref loops e ≡ true
    → is_start_step e ≡ false
unfolding is_own
own-is_start_step ref loops (connects k) h = refl
own-is_start_step ref loops (moves i ch) h = refl
own-is_start_step ref loops (fires k) h = refl
own-is_start_step ref loops (runs_region (starts token)) h = cc
own-is_start_step ref loops (runs_region _) h = refl

own-attached_after :
    (ref : ActorRef) (loops : List ActorRef) (e : Steps.Event) (ks : List ℕ)
    → is_own ref loops e ≡ true
    → attached_after e ks ≡ ks
unfolding is_own
own-attached_after ref loops (connects k) ks h = cc
own-attached_after ref loops (moves i ch) ks h = refl
own-attached_after ref loops (fires k) ks h = refl
own-attached_after ref loops (runs_region sec) ks h = refl

module _ ⦃json : Json⦄ (c : Config) where
  pub own-Alike :
      (ref other : ActorRef) (e : Steps.Event) (b b' : Service)
      → is_own ref b.loops e ≡ true
      → At c ref e b b'
      → Alike (system_of other b.systems) (system_of other b'.systems)
  own-Alike ref other e b b' own a = elim (Bool-cases (ref == other)) [
    | inr differs ↦
        Alike-same (system_of other b.systems) (system_of other b'.systems)
          (rw a.now (system_of-insert ref other a.after b.systems ∙ rw differs refl))
    | inl same ↦
        let after : system_of other b'.systems ≡ a.after =
          rw a.now (system_of-insert ref other a.after b.systems ∙ rw same refl) in
        let before : system_of other b.systems ≡ a.before =
          rw (← (eq_iff ref other).0 same) (system_of-lookup ref b.systems a.before a.known) in
        rw (after, before)
          (record {
            attached =
                step-attached c e a.before a.after a.takes
                ∙ own-attached_after ref b.loops e a.before.shared.attached own;
            loop = step-SameLoop c e a.before a.after (own-is_start_step ref b.loops e own) a.takes;
          })
  ]
