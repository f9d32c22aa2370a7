-- ===== src/Broker/Callers.antt =====
-- Every step of the process keeps the tickets, the handlers and the connections of
-- cmd/egress-broker/server.go those of identified callers.
use substrate_ws_poc.Prelude.{
  ℕ, Bool, true, false, List, [], ◌∷◌, Option, none, some, ◌≡◌, refl, sym, subst, arith, ◌==◌,
  nat_eq, eq_iff, eq_refl, is_none, Bool-cases, Option-cases, inl, inr, >>=-eq-some, All, All-map,
  All-append, get_elem?, get_elem?-All, set, set-All,
}
use substrate_ws_poc.Prelude.Bytes.{Bytes, bytes_eq}
use substrate_ws_poc.Prelude.Dict.{lookup, insert-All, lookup-All, delete-All}
use substrate_ws_poc.Actor.{ActorRef, actor_eq}
use substrate_ws_poc.SocketMode.{Json}
use substrate_ws_poc.Session.State.{Config}
use substrate_ws_poc.Server.Tickets.{Tickets, issue_ticket, redeem_ticket, redeem-delete}
use substrate_ws_poc.Server.Open.{golden_atespace}
use substrate_ws_poc.Broker.State.{
  Handler, creating, starting, issuing, joining, attaching, returned, Service,
}
use substrate_ws_poc.Broker.Steps.{
  Event, opens, enters, handles, acts, caller_of, first_call, admit, entered, is_own, get_or_create,
  call, step,
}
use substrate_ws_poc.Broker.Moves.{at-At, call-Starting, call-Attaching}
use substrate_ws_poc.Broker.Backed.{
  Asked, Sinks, asked_by, asked_with, asked_with-asked_by, is_sink, is_backed, AreIssued,
  AreUpgraded, IsBacked, Grows, Grows-is_backed, Grows-same, caller_of-token, admit-Grows,
  entered-Grows,
}

-- A redeemed ticket is a caller's, and so are the others.
redeem-AreIssued :
    (asked : Asked) (t : Bytes) (n : ℕ) (m : Tickets)
    → AreIssued asked m
    → AreIssued asked (redeem_ticket t n m).0
redeem-AreIssued asked t n m h =
    rw (redeem-delete t n m) (delete-All (λ e. asked_by e.1.ref asked ≡ true) t m h)

redeem-asked_by :
    (asked : Asked) (t : Bytes) (n : ℕ) (m : Tickets) (ref : ActorRef)
    → AreIssued asked m
    → (redeem_ticket t n m).1 ≡ some ref
    → asked_by ref asked ≡ true
unfolding redeem_ticket
redeem-asked_by asked t n m ref h e = elim (Option-cases (lookup t m)) [
  | inl unknown ↦ absurd (ground arith)
  | inr (entry, known) ↦
      let of_caller = lookup-All (λ e. asked_by e.1.ref asked ≡ true) t entry m h known in
      ground arith
]

issue-AreIssued :
    (asked : Asked) (ref : ActorRef) (t : Bytes) (n : ℕ) (m : Tickets)
    → asked_by ref asked ≡ true
    → AreIssued asked m
    → AreIssued asked (issue_ticket ref t n m)
unfolding issue_ticket
issue-AreIssued asked ref t n m by h = insert-All _ t _ m by h

pub admit-none : (b : Service) → admit none b ≡ b
unfolding admit
admit-none b = refl

module _ (b b' : Service) (g : Grows b b') where
  later-tickets : (m : Tickets) → AreIssued b.asked m → AreIssued b'.asked m
  later-tickets m h = All-map _ _ (λ e. g.asked e.1.ref) m h

  later-sinks : (m : Sinks) → AreUpgraded b.asked m → AreUpgraded b'.asked m
  later-sinks m h = All-map _ _ (λ s. g.asked s.1) m h

  later-handlers :
      (hs : List Handler)
      → All (λ h. is_backed b.asked b.sinks h ≡ true) hs
      → All (λ h. is_backed b'.asked b'.sinks h ≡ true) hs
  later-handlers hs k = All-map _ _ (λ h. Grows-is_backed b b' h g) hs k

admit-IsBacked :
    (ref : ActorRef) (token : Bytes) (b : Service)
    → (token == []) ≡ false
    → IsBacked b
    → IsBacked (admit (some (ref, token)) b)
unfolding admit asked_by asked_with
admit-IsBacked ref token b given v =
    let b' = admit (some (ref, token)) b in
    let g = admit-Grows (some (ref, token)) b in
    let here : is_backed b'.asked b'.sinks (first_call ref token) ≡ true =
      ground (arith, eq_refl ref, eq_refl token, eq_iff ref.atespace golden_atespace) in
    record {
      tickets = later-tickets b b' g b.tickets v.tickets;
      handlers =
          All-append _ b.handlers (first_call ref token ∷ [])
            (later-handlers b b' g b.handlers v.handlers) (here, tt);
      sinks = later-sinks b b' g b.sinks v.sinks;
    }

entered-IsBacked :
    (k : ℕ) (upgraded : Bool) (m : Tickets) (who : Option ActorRef) (b : Service)
    → is_none (lookup k b.sinks) ≡ true
    → AreIssued b.asked m
    → ((ref : ActorRef) → who ≡ some ref → asked_by ref b.asked ≡ true)
    → IsBacked b
    → IsBacked (entered k upgraded (m, who) b)
unfolding entered is_sink lookup
entered-IsBacked k upgraded m none b new issued asked v = record {
  tickets = issued;
  handlers = v.handlers;
  sinks = v.sinks;
}
entered-IsBacked k false m (some ref) b new issued asked v = record {
  tickets = issued;
  handlers = v.handlers;
  sinks = v.sinks;
}
entered-IsBacked k true m (some ref) b new issued asked v =
    let b' = entered k true (m, some ref) b in
    let g = entered-Grows k true (m, some ref) b new in
    let here : is_sink ref k b'.sinks ≡ true = ground (arith, eq_refl k, eq_refl ref) in
    record {
      tickets = issued;
      handlers =
          All-append _ b.handlers (joining ref k ∷ []) (later-handlers b b' g b.handlers v.handlers)
            (here, tt);
      sinks = (asked ref refl, v.sinks);
    }

-- A handler's call keeps the callers and the connections, and the handler stays backed.
pub record CallsBacked (b b' : Service) (h' : Handler) : Type 0 where
  pub asked : b'.asked ≡ b.asked
  pub sinks : b'.sinks ≡ b.sinks
  pub handlers : b'.handlers ≡ b.handlers
  pub tickets : AreIssued b.asked b'.tickets
  pub next : is_backed b.asked b.sinks h' ≡ true

handled :
    (i : ℕ) (b m : Service) (h' : Handler)
    → CallsBacked b m h'
    → IsBacked b
    → let b' = record m { handlers = set b.handlers i h' } in IsBacked b' × Grows b b'
handled i b m h' k v =
    let b' = record m { handlers = set b.handlers i h' } in
    let g = Grows-same b b' k.asked k.sinks in
    (
      record {
        tickets = later-tickets b b' g m.tickets k.tickets;
        handlers =
            later-handlers b b' g (set b.handlers i h')
              (set-All _ b.handlers i h' k.next v.handlers);
        sinks = subst (AreUpgraded m.asked) (sym k.sinks) (later-sinks b b' g b.sinks v.sinks);
      },
      g,
    )

module _ ⦃json : Json⦄ (c : Config) where
  call-CallsBacked :
      (h : Handler) (t : Bytes) (n : ℕ) (b b' : Service) (h' : Handler)
      → call c h t n b ≡ some (b', h')
      → is_backed b.asked b.sinks h ≡ true
      → IsBacked b
      → CallsBacked b b' h'
  unfolding call
  call-CallsBacked (creating ref token) t n b b' h' e k v =
      let now : b' ≡ record b { systems = get_or_create ref b.systems } = ground arith in
      let next : h' ≡ starting ref token = ground arith in
      rw (now, next)
        (record { asked = refl; sinks = refl; handlers = refl; tickets = v.tickets; next = k })
  call-CallsBacked (starting ref token) t n b b' h' e k v =
      let s = call-Starting c ref token t n b b' h' e in
      let by = asked_with-asked_by ref token b.asked (ground arith) in
      rw (s.now, s.taken.now, s.next)
        (record { asked = refl; sinks = refl; handlers = refl; tickets = v.tickets; next = by })
  call-CallsBacked (issuing ref) t n b b' h' e k v =
      let now : b' ≡ record b { tickets = issue_ticket ref t n b.tickets } = ground arith in
      let next : h' ≡ returned = ground arith in
      rw (now, next)
        (record {
          asked = refl;
          sinks = refl;
          handlers = refl;
          tickets = issue-AreIssued b.asked ref t n b.tickets k v.tickets;
          next = refl;
        })
  call-CallsBacked (joining ref j) t n b b' h' e k v =
      let now : b' ≡ record b { systems = get_or_create ref b.systems } = ground arith in
      let next : h' ≡ attaching ref j = ground arith in
      rw (now, next)
        (record { asked = refl; sinks = refl; handlers = refl; tickets = v.tickets; next = k })
  call-CallsBacked (attaching ref j) t n b b' h' e k v =
      let (a, next) = call-Attaching c ref j t n b b' h' e in
      rw (a.now, next)
        (record { asked = refl; sinks = refl; handlers = refl; tickets = v.tickets; next = refl })
  call-CallsBacked returned t n b b' h' e k v = cc

  -- A step keeps what every step has kept, and it only adds callers and connections.
  pub step-IsBacked :
      (e : Event) (b b' : Service) → step c e b ≡ some b' → IsBacked b → IsBacked b' × Grows b b'
  unfolding step
  step-IsBacked (opens w r) b b' e v = elim (Option-cases (caller_of w r)) [
    | inl none_there ↦
        let now : b' ≡ b = ground (arith, admit-none b) in rw now (v, Grows-same b b refl refl)
    | inr ((ref, token), here) ↦
        let now : b' ≡ admit (some (ref, token)) b = ground arith in
        rw now (
          admit-IsBacked ref token b (caller_of-token w r ref token here) v,
          admit-Grows (some (ref, token)) b,
        )
  ]
  step-IsBacked (enters t n upgraded k) b b' e v = elim (Bool-cases (is_none (lookup k b.sinks))) [
    | inr old ↦ absurd (ground arith)
    | inl new ↦
        let r = redeem_ticket t n b.tickets in
        let now : b' ≡ entered k upgraded r b = ground arith in
        rw now (
          entered-IsBacked k upgraded r.0 r.1 b new
              (redeem-AreIssued b.asked t n b.tickets v.tickets)
              (λ ref. redeem-asked_by b.asked t n b.tickets ref v.tickets) v,
          entered-Grows k upgraded r b new,
        )
  ]
  step-IsBacked (handles i t n) b b' e v =
      let (h, here, next) = >>=-eq-some (get_elem? b.handlers i) _ e in
      let ((m, h'), called, out) = >>=-eq-some (call c h t n b) _ next in
      let k =
        call-CallsBacked h t n b m h' called (get_elem?-All _ b.handlers i h v.handlers here) v in
      let now : b' ≡ record m { handlers = set b.handlers i h' } = ground arith in
      rw now (handled i b m h' k v)
  step-IsBacked (acts ref e) b b' h v = elim (Bool-cases (is_own ref b.loops e)) [
    | inr other ↦ absurd (ground arith)
    | inl own ↦
        let a = at-At c ref e b b' (ground arith) in
        rw a.now (
          record { tickets = v.tickets; handlers = v.handlers; sinks = v.sinks },
          Grows-same b _ refl refl,
        )
  ]
