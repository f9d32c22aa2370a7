-- ===== src/Broker/Presents.antt =====
-- The callers of `handleConnectionsOpen` in cmd/egress-broker/server.go are known from the requests
-- that came.
use substrate_ws_poc.Prelude.{
  ℕ, suc, Bool, true, ◌&&◌, List, [], ◌∷◌, Option, none, some, ◌≡◌, ◌⊎◌, refl, arith, ◌==◌, nat_eq,
  eq_iff, Bool-cases, Option-cases, inl, inr, >>=-eq-some, get_elem?,
}
use substrate_ws_poc.Prelude.Bytes.{Bytes, bytes_eq}
use substrate_ws_poc.Actor.{ActorRef, actor_eq}
use substrate_ws_poc.SocketMode.{Json}
use substrate_ws_poc.Session.State.{Config}
use substrate_ws_poc.Server.Tokens.{bearer_token}
use substrate_ws_poc.Server.Tickets.{Tickets, redeem_ticket}
use substrate_ws_poc.Server.Locate.{located, Outcome-cases}
use substrate_ws_poc.Server.Open.{World, OpenRequest, identify}
use substrate_ws_poc.Broker.State.{
  Handler, creating, starting, issuing, joining, attaching, returned, Service, new_service,
}
use substrate_ws_poc.Broker.Steps.{
  Event, opens, enters, handles, acts, caller_of, admit, entered, is_own, call, step, run,
}
use substrate_ws_poc.Broker.Moves.{at-At, call-Starting, call-Attaching}
use substrate_ws_poc.Broker.Backed.{Asked, asked_by, asked_with}
use substrate_ws_poc.Broker.Callers.{admit-none}

-- The i-th event is a bootstrap request whose caller is identified as the actor and has the token.
pub record Presents (ref : ActorRef) (token : Bytes) (es : List Event) : Type 0 where
  pub at : ℕ
  pub world : World
  pub request : OpenRequest
  pub came : get_elem? es at ≡ some (opens world request)
  pub identified : identify world request ≡ located ref
  pub with_token : bearer_token request.authorization ≡ token

Presents-cons :
    (ref : ActorRef) (token : Bytes) (e : Event) (es : List Event)
    → Presents ref token es
    → Presents ref token (e ∷ es)
Presents-cons ref token e es p = record {
  at = suc p.at;
  world = p.world;
  request = p.request;
  came = p.came;
  identified = p.identified;
  with_token = p.with_token;
}

caller_of-identified :
    (w : World) (r : OpenRequest) (ref : ActorRef) (token : Bytes)
    → caller_of w r ≡ some (ref, token)
    → (identify w r ≡ located ref) × (bearer_token r.authorization ≡ token)
unfolding caller_of
caller_of-identified w r ref token h = elim (Bool-cases (bearer_token r.authorization == [])) [
  | inl empty ↦ absurd (ground arith)
  | inr given ↦ elim (Outcome-cases (identify w r)) [
    | inr (e, lost) ↦ absurd (ground arith)
    | inl (a, here) ↦ (ground arith, ground arith)
  ]
]

entered-asked :
    (k : ℕ) (upgraded : Bool) (r : Tickets × Option ActorRef) (b : Service)
    → (entered k upgraded r b).asked ≡ b.asked
unfolding entered
entered-asked k upgraded (m, none) b = refl
entered-asked k upgraded (m, some ref) b = ground arith

asked_with-admit :
    (ref a : ActorRef) (token u : Bytes) (b : Service)
    → asked_with ref token (admit (some (a, u)) b).asked ≡ true
    → (asked_with ref token b.asked ≡ true) ⊎ ((a ≡ ref) × (u ≡ token))
unfolding admit asked_with
asked_with-admit ref a token u b h = elim (Bool-cases (a == ref && u == token)) [
  | inl same ↦ inr ((eq_iff a ref).0 (ground arith), (eq_iff u token).0 (ground arith))
  | inr other ↦ inl (ground arith)
]

-- A caller is known with some token.
pub asked_by-asked_with :
    (ref : ActorRef) (asked : Asked)
    → asked_by ref asked ≡ true
    → (token : Bytes) × (asked_with ref token asked ≡ true)
unfolding asked_by asked_with
asked_by-asked_with ref [] h = cc
asked_by-asked_with ref ((a, u) ∷ rest) h = elim (Bool-cases (a == ref)) [
  | inl same ↦ (u, ground (arith, eq_iff u u))
  | inr other ↦
      let (token, there) = asked_by-asked_with ref rest (ground arith) in (token, ground arith)
]

module _ ⦃json : Json⦄ (c : Config) where
  call-asked :
      (h : Handler) (t : Bytes) (n : ℕ) (b b' : Service) (h' : Handler)
      → call c h t n b ≡ some (b', h')
      → b'.asked ≡ b.asked
  unfolding call
  call-asked (creating ref token) t n b b' h' e = ground arith
  call-asked (starting ref token) t n b b' h' e =
      let s = call-Starting c ref token t n b b' h' e in rw (s.now, s.taken.now) refl
  call-asked (issuing ref) t n b b' h' e = ground arith
  call-asked (joining ref k) t n b b' h' e = ground arith
  call-asked (attaching ref k) t n b b' h' e =
      let (a, next) = call-Attaching c ref k t n b b' h' e in rw a.now refl
  call-asked returned t n b b' h' e = cc

  -- A caller who is known after a step was known before it, or has come with it.
  step-asked_with :
      (ref : ActorRef) (token : Bytes) (e : Event) (es : List Event) (b b' : Service)
      → step c e b ≡ some b'
      → asked_with ref token b'.asked ≡ true
      → (asked_with ref token b.asked ≡ true) ⊎ Presents ref token (e ∷ es)
  unfolding step
  step-asked_with ref token (opens w r) es b b' e h = elim (Option-cases (caller_of w r)) [
    | inl none_there ↦ let now : b' ≡ b = ground (arith, admit-none b) in inl (rw now at h)
    | inr ((a, u), here) ↦
        let now : b' ≡ admit (some (a, u)) b = ground arith in
        elim (asked_with-admit ref a token u b (rw now at h)) [
          | inl before ↦ inl before
          | inr (same, given) ↦
              let (identified, with) = caller_of-identified w r a u here in
              inr (record {
                at = 0;
                world = w;
                request = r;
                came = refl;
                identified = rw (← same) identified;
                with_token = rw (← given) with;
              })
        ]
  ]
  step-asked_with ref token (enters t n upgraded k) es b b' e h =
      let now : b' ≡ entered k upgraded (redeem_ticket t n b.tickets) b = ground arith in
      inl (rw (entered-asked k upgraded (redeem_ticket t n b.tickets) b) at (rw now at h))
  step-asked_with ref token (handles i t n) es b b' e h =
      let (x, here, next) = >>=-eq-some (get_elem? b.handlers i) _ e in
      let ((m, x'), called, out) = >>=-eq-some (call c x t n b) _ next in
      let now : b'.asked ≡ m.asked = ground arith in
      inl (rw (call-asked x t n b m x' called) at (rw now at h))
  step-asked_with ref token (acts a e) es b b' k h = elim (Bool-cases (is_own a b.loops e)) [
    | inr other ↦ absurd (ground arith)
    | inl own ↦ let now = (at-At c a e b b' (ground arith)).now in inl (rw now at h)
  ]

  run-asked_with :
      (ref : ActorRef) (token : Bytes) (es : List Event) (b b' : Service)
      → run c es b ≡ some b'
      → asked_with ref token b'.asked ≡ true
      → (asked_with ref token b.asked ≡ true) ⊎ Presents ref token es
  unfolding run
  run-asked_with ref token [] b b' h k = let same : b ≡ b' = ground arith in inl (rw same k)
  run-asked_with ref token (e ∷ es) b b' h k =
      let (m, here, later) = >>=-eq-some (step c e b) _ h in
      elim (run-asked_with ref token es m b' later k) [
        | inr p ↦ inr (Presents-cons ref token e es p)
        | inl old ↦ step-asked_with ref token e es b m here old
      ]

  pub run-Presents :
      (ref : ActorRef) (token : Bytes) (es : List Event) (b : Service)
      → run c es new_service ≡ some b
      → asked_with ref token b.asked ≡ true
      → Presents ref token es
  unfolding new_service asked_with
  run-Presents ref token es b h k = elim (run-asked_with ref token es new_service b h k) [
    | inl never ↦ absurd (ground arith)
    | inr p ↦ p
  ]
