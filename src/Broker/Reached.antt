-- ===== src/Broker/Reached.antt =====
-- The states that the process of cmd/egress-broker reaches: whom its handlers work for, and what
-- belongs to whom.
use substrate_ws_poc.Prelude.{
  ℕ, Bool, true, false, List, [], ◌∷◌, Option, none, some, ◌≡◌, refl, ap, ◌∙◌, subst, arith,
  if◌then◌else◌, ◌==◌, nat_eq, eq_iff, Bool-cases, inl, inr, >>=-eq-some, get_elem?, get_elem?-All,
  set,
}
use substrate_ws_poc.Prelude.Bytes.{Bytes, bytes_eq}
use substrate_ws_poc.Prelude.Dict.{lookup}
use substrate_ws_poc.Actor.{ActorRef, actor_eq}
use substrate_ws_poc.SocketMode.{Json}
use substrate_ws_poc.Session.State.{Config, new_session}
use substrate_ws_poc.Session.Outbox.{elem}
use substrate_ws_poc.Server.Tickets.{Tickets, issue_ticket, redeem_ticket}
use substrate_ws_poc.System.State.{new_system}
use substrate_ws_poc.System.Steps.{connects}
use substrate_ws_poc.System.Traces.{SameLoop, step-SameLoop, step-attached}
use substrate_ws_poc.Broker.State.{
  Handler, creating, starting, issuing, joining, attaching, returned, Service, system_of, loops_of,
  new_service,
}
use substrate_ws_poc.Broker.Steps.{
  Event, opens, enters, handles, acts, caller_of, admit, entered, get_or_create, is_own, call, step,
  run,
}
use substrate_ws_poc.Broker.Moves.{
  system_of-insert, system_of-get_or_create, system_of-lookup, admit-systems, entered-systems, At,
  at-At, call-Starting, call-Attaching,
}
use substrate_ws_poc.Broker.Backed.{is_sink, is_backed, IsBacked, Grows, Grows-same}
use substrate_ws_poc.Broker.Callers.{step-IsBacked}
use substrate_ws_poc.Broker.Owned.{IsOwned, Alike-same, Alike-IsOwned, own-Alike}
use substrate_ws_poc.Broker.Starts.{starting-IsOwned}

-- The steps that change no session's connections, token or read loop.
same-IsOwned :
    (b b' : Service)
    → Grows b b'
    → b'.loops ≡ b.loops
    → ((ref : ActorRef) → system_of ref b'.systems ≡ system_of ref b.systems)
    → IsOwned b
    → IsOwned b'
same-IsOwned b b' g loops same v =
    Alike-IsOwned b b' g loops
      (λ ref. Alike-same (system_of ref b.systems) (system_of ref b'.systems) (same ref)) v

admit-loops : (who : Option (ActorRef × Bytes)) (b : Service) → (admit who b).loops ≡ b.loops
unfolding admit
admit-loops none b = refl
admit-loops (some (ref, token)) b = refl

entered-loops :
    (k : ℕ) (upgraded : Bool) (r : Tickets × Option ActorRef) (b : Service)
    → (entered k upgraded r b).loops ≡ b.loops
unfolding entered
entered-loops k upgraded (m, none) b = refl
entered-loops k upgraded (m, some ref) b = ground arith

handlers-IsOwned :
    (b : Service) (hs : List Handler) → IsOwned b → IsOwned (record b { handlers = hs })
handlers-IsOwned b hs v = record { attached = v.attached; loop = v.loop; token = v.token }

pub new_service-IsBacked : IsBacked new_service
unfolding new_service
new_service-IsBacked = record { tickets = tt; handlers = tt; sinks = tt }

pub new_service-IsOwned : IsOwned new_service
unfolding new_service system_of lookup loops_of new_system new_session elem
new_service-IsOwned = record { attached = λ ref k h. cc; loop = λ ref. refl; token = λ ref h. cc }

module _ ⦃json : Json⦄ (c : Config) where
  -- After `Attach` on a connection that was upgraded for the actor.
  module _ (ref : ActorRef) (k : ℕ) (b b' : Service) (a : At c ref (connects k) b b')
      (mine : is_sink ref k b.sinks ≡ true) (v : IsOwned b) where
    a-after :
        (other : ActorRef)
        → system_of other b'.systems ≡ (if ref == other then a.after else system_of other b.systems)
    a-after other = rw a.now (system_of-insert ref other a.after b.systems)

    a-before : (other : ActorRef) → (ref == other) ≡ true → system_of other b.systems ≡ a.before
    a-before other same =
        rw (← (eq_iff ref other).0 same) (system_of-lookup ref b.systems a.before a.known)

    a-other :
        (other : ActorRef)
        → (ref == other) ≡ false
        → system_of other b'.systems ≡ system_of other b.systems
    a-other other differs = a-after other ∙ rw differs refl

    a_self : (other : ActorRef) → (ref == other) ≡ true → system_of other b'.systems ≡ a.after
    a_self other same = a-after other ∙ rw same refl

    attaching-loop :
        (other : ActorRef)
        → SameLoop
            (system_of other b.systems).shared.session
            (system_of other b'.systems).shared.session
    attaching-loop other = elim (Bool-cases (ref == other)) [
      | inr differs ↦
          (Alike-same (system_of other b.systems) (system_of other b'.systems)
            (a-other other differs)).loop
      | inl same ↦
          rw (a_self other same, a-before other same)
            (step-SameLoop c (connects k) a.before a.after refl a.takes)
    ]

    attaching-attached :
        (other : ActorRef) (j : ℕ)
        → elem j (system_of other b'.systems).shared.attached ≡ true
        → is_sink other j b.sinks ≡ true
    unfolding elem
    attaching-attached other j h = elim (Bool-cases (ref == other)) [
      | inr differs ↦ v.attached other j (rw (a-other other differs) at h)
      | inl same ↦
          let more = step-attached c (connects k) a.before a.after a.takes in
          let old : elem j a.before.shared.attached ≡ true → is_sink other j b.sinks ≡ true =
            λ found. v.attached other j (rw (a-before other same) found) in
          let there : elem j (k ∷ a.before.shared.attached) ≡ true =
            rw more at (rw (a_self other same) at h) in
          elim (Bool-cases (k == j)) [
            | inl new ↦ rw (← (eq_iff k j).0 new, ← (eq_iff ref other).0 same) mine
            | inr not_new ↦ old (ground arith)
          ]
    ]

    attaching-IsOwned : IsOwned b'
    attaching-IsOwned = record {
      attached = λ other j h. rw a.now (attaching-attached other j h);
      loop = λ other. rw (attaching-loop other).started (rw a.now (v.loop other));
      token = λ other h.
          rw (attaching-loop other).token
            (rw a.now (v.token other (rw (attaching-loop other).started at h)));
    }

  call-IsOwned :
      (h : Handler) (t : Bytes) (n : ℕ) (b b' : Service) (h' : Handler)
      → call c h t n b ≡ some (b', h')
      → is_backed b.asked b.sinks h ≡ true
      → IsOwned b
      → IsOwned b'
  unfolding call
  call-IsOwned (creating ref token) t n b b' h' e k v =
      let now : b' ≡ record b { systems = get_or_create ref b.systems } = ground arith in
      same-IsOwned b b' (Grows-same b b' (rw now refl) (rw now refl)) (rw now refl)
        (λ other. rw now (system_of-get_or_create ref other b.systems)) v
  call-IsOwned (starting ref token) t n b b' h' e k v =
      starting-IsOwned c ref token b b' h' (call-Starting c ref token t n b b' h' e) k v
  call-IsOwned (issuing ref) t n b b' h' e k v =
      let now : b' ≡ record b { tickets = issue_ticket ref t n b.tickets } = ground arith in
      same-IsOwned b b' (Grows-same b b' (rw now refl) (rw now refl)) (rw now refl)
        (λ other. rw now refl) v
  call-IsOwned (joining ref j) t n b b' h' e k v =
      let now : b' ≡ record b { systems = get_or_create ref b.systems } = ground arith in
      same-IsOwned b b' (Grows-same b b' (rw now refl) (rw now refl)) (rw now refl)
        (λ other. rw now (system_of-get_or_create ref other b.systems)) v
  call-IsOwned (attaching ref j) t n b b' h' e k v =
      attaching-IsOwned ref j b b' (call-Attaching c ref j t n b b' h' e).0 k v
  call-IsOwned returned t n b b' h' e k v = cc

  pub step-IsOwned :
      (e : Event) (b b' : Service) → step c e b ≡ some b' → IsBacked b → IsOwned b → IsOwned b'
  unfolding step
  step-IsOwned (opens w r) b b' e k v =
      let now : b' ≡ admit (caller_of w r) b = ground arith in
      same-IsOwned b b' (step-IsBacked c (opens w r) b b' (rw now refl) k).1
        (rw now (admit-loops (caller_of w r) b))
        (λ ref. rw now (ap (system_of ref) (admit-systems (caller_of w r) b))) v
  step-IsOwned (enters t n upgraded j) b b' e k v =
      let r = redeem_ticket t n b.tickets in
      let now : b' ≡ entered j upgraded r b = ground arith in
      same-IsOwned b b' (step-IsBacked c (enters t n upgraded j) b b' e k).1
        (rw now (entered-loops j upgraded r b))
        (λ ref. rw now (ap (system_of ref) (entered-systems j r b upgraded))) v
  step-IsOwned (handles i t n) b b' e k v =
      let (h, here, next) = >>=-eq-some (get_elem? b.handlers i) _ e in
      let ((m, h'), called, out) = >>=-eq-some (call c h t n b) _ next in
      let now : record m { handlers = set b.handlers i h' } ≡ b' = ground arith in
      subst IsOwned now (
        handlers-IsOwned m (set b.handlers i h')
          (call-IsOwned h t n b m h' called (get_elem?-All _ b.handlers i h k.handlers here) v))
  step-IsOwned (acts ref e) b b' h k v = elim (Bool-cases (is_own ref b.loops e)) [
    | inr other ↦ absurd (ground arith)
    | inl own ↦
        let a = at-At c ref e b b' (ground arith) in
        Alike-IsOwned b b' (Grows-same b b' (rw a.now refl) (rw a.now refl)) (rw a.now refl)
          (λ other. own-Alike c ref other e b b' own a) v
  ]

  pub run-IsOwned :
      (es : List Event) (b b' : Service)
      → run c es b ≡ some b'
      → IsBacked b
      → IsOwned b
      → IsBacked b' × IsOwned b'
  unfolding run
  run-IsOwned [] b b' h k v =
      let same : b ≡ b' = ground arith in (subst IsBacked same k, subst IsOwned same v)
  run-IsOwned (e ∷ es) b b' h k v =
      let (m, here, later) = >>=-eq-some (step c e b) _ h in
      run-IsOwned es m b' later (step-IsBacked c e b m here k).0 (step-IsOwned e b m here k v)

  pub run_new-IsOwned :
      (es : List Event) (b : Service) → run c es new_service ≡ some b → IsBacked b × IsOwned b
  run_new-IsOwned es b h = run-IsOwned es new_service b h new_service-IsBacked new_service-IsOwned
