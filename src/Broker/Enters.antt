-- ===== src/Broker/Enters.antt =====
-- What a request for the socket brings about in the process: `handleActorSocket` of
-- cmd/egress-broker/server.go up to its call of `Attach`.
use substrate_ws_poc.Prelude.{
  ap, ltb, ◌⊎◌, ◌≤◌, ◌<◌, ◌==◌, arith, length, ℕ, Bool, nat_eq, true, false, List, [], ◌∷◌, ◌++◌,
  Option, none, some, ◌≡◌, refl, if◌then◌else◌, Bool-cases, Option-cases, inl, inr, length, set,
}
use substrate_ws_poc.Prelude.Bytes.{Bytes, bytes_eq}
use substrate_ws_poc.Prelude.Dict.{lookup}
use substrate_ws_poc.Actor.{ActorRef, actor_eq}
use substrate_ws_poc.SocketMode.{Json}
use substrate_ws_poc.Session.State.{Config}
use substrate_ws_poc.Broker.State.{Handler, joining, attaching, Service, system_of}
use substrate_ws_poc.Broker.Steps.{Event, enters, entered, handles, get_or_create, call, step, run}
use substrate_ws_poc.Broker.Leads.{lookup-get_or_create, get_elem?-last}
use substrate_ws_poc.Server.Tickets.{Tickets, TicketEntry, redeem_ticket, redeem-lookup}
use substrate_ws_poc.Broker.Moves.{system_of-get_or_create}
use substrate_ws_poc.Broker.Views.{calls_then}

-- The call that the socket's handler makes before `Attach`.
abbrev pub entering : ℕ → Bool → Option ActorRef → List Event
entering i upgraded none = []
entering i upgraded (some ref) = if upgraded then handles i [] 0 ∷ [] else []

-- The ticket is held and in time, the upgrade succeeds, and the handler's next call attaches the
-- connection to the ticket's actor, which has a session.
pub record IsAdmitted (k : ℕ) (t : Bytes) (now : ℕ) (upgraded : Bool) (b last : Service)
    : Type 0 where
  pub entry : TicketEntry
  pub held : lookup t b.tickets ≡ some entry
  pub in_time : now ≤ entry.expires
  pub met : upgraded ≡ true
  pub handlers : last.handlers ≡ b.handlers ++ attaching entry.ref k ∷ []
  pub sinks : last.sinks ≡ (k, entry.ref) ∷ b.sinks
  pub session : lookup entry.ref last.systems ≡ some (system_of entry.ref b.systems)

-- There is no such ticket, it is too late, or the upgrade fails; no handler goes on.
pub record IsRefused (t : Bytes) (now : ℕ) (upgraded : Bool) (b last : Service) : Type 0 where
  pub why :
      (lookup t b.tickets ≡ none)
      ⊎ (((e : TicketEntry) × (lookup t b.tickets ≡ some e) × (e.expires < now))
          ⊎ (upgraded ≡ false))
  pub handlers : last.handlers ≡ b.handlers
  pub sinks : last.sinks ≡ b.sinks
  pub systems : last.systems ≡ b.systems

set-last : (xs : List Handler) (h h' : Handler) → set (xs ++ h ∷ []) (length xs) h' ≡ xs ++ h' ∷ []
set-last [] h h' = refl
set-last (x ∷ xs) h h' = ap (◌∷◌ x) (set-last xs h h')

redeemed_entry :
    (t : Bytes) (now : ℕ) (m : Tickets) (ref : ActorRef)
    → (redeem_ticket t now m).1 ≡ some ref
    → (e : TicketEntry) × (lookup t m ≡ some e) × (now ≤ e.expires) × (e.ref ≡ ref)
unfolding redeem_ticket
redeemed_entry t now m ref h = elim (Option-cases (lookup t m)) [
  | inl unknown ↦ absurd (ground arith)
  | inr (e, known) ↦ elim (Bool-cases (ltb e.expires now)) [
    | inl late ↦ absurd (ground arith)
    | inr soon ↦ (e, known, ground arith, ground arith)
  ]
]

redeem_ticket-none :
    (t : Bytes) (now : ℕ) (m : Tickets)
    → (redeem_ticket t now m).1 ≡ none
    → (lookup t m ≡ none) ⊎ ((e : TicketEntry) × (lookup t m ≡ some e) × (e.expires < now))
unfolding redeem_ticket
redeem_ticket-none t now m h = elim (Option-cases (lookup t m)) [
  | inl unknown ↦ inl unknown
  | inr (e, known) ↦ elim (Bool-cases (ltb e.expires now)) [
    | inl late ↦ inr (e, known, ground arith)
    | inr soon ↦ absurd (ground arith)
  ]
]

module _ ⦃json : Json⦄ (c : Config) (k : ℕ) (t : Bytes) (now : ℕ) (upgraded : Bool)
    (b : Service) where
  abbrev first : ℕ
  first = length b.handlers

  abbrev redeemed : Tickets × Option ActorRef
  redeemed = redeem_ticket t now b.tickets

  -- The request comes, and these calls are made for it.
  pub record Entered (ref : Option ActorRef) : Type 0 where
    pub last : Service
    pub runs : run c (enters t now upgraded k ∷ entering first upgraded ref) b ≡ some last
    pub tickets :
        (u : Bytes) → lookup u last.tickets ≡ (if t == u then none else lookup u b.tickets)
    pub same : (a : ActorRef) → system_of a last.systems ≡ system_of a b.systems
    pub outcome : IsAdmitted k t now upgraded b last ⊎ IsRefused t now upgraded b last

  module _ (fresh : lookup k b.sinks ≡ none) where
    unknown-Entered : redeemed.1 ≡ none → Entered none
    unfolding run step entered
    unknown-Entered unknown = record {
      last = record b { tickets = redeemed.0 };
      runs = rw (fresh, unknown, entered) refl;
      tickets = λ u. redeem-lookup t u now b.tickets;
      same = λ a. refl;
      outcome = inr (record {
        why = elim (redeem_ticket-none t now b.tickets unknown) [
          | inl absent ↦ inl absent
          | inr late ↦ inr (inl late)
        ];
        handlers = refl;
        sinks = refl;
        systems = refl;
      });
    }

    refused-Entered :
        (ref : ActorRef) → redeemed.1 ≡ some ref → upgraded ≡ false → Entered (some ref)
    unfolding run step entered
    refused-Entered ref known refused = record {
      last = record b { tickets = redeemed.0 };
      runs = rw (fresh, known, refused, entered) refl;
      tickets = λ u. redeem-lookup t u now b.tickets;
      same = λ a. refl;
      outcome =
          inr (record { why = inr (inr refused); handlers = refl; sinks = refl; systems = refl });
    }

    -- The connection is upgraded for its actor.
    abbrev met : ActorRef → Service
    met ref = record b {
      tickets = redeemed.0;
      handlers = b.handlers ++ joining ref k ∷ [];
      sinks = (k, ref) ∷ b.sinks;
    }

    meets_then :
        (ref : ActorRef) (es : List Event) (z : Service)
        → redeemed.1 ≡ some ref
        → upgraded ≡ true
        → run c es (met ref) ≡ some z
        → run c (enters t now upgraded k ∷ es) b ≡ some z
    unfolding run step entered
    meets_then ref es z known good later = rw (fresh, known, good) later

    joined-Entered : (ref : ActorRef) → redeemed.1 ≡ some ref → upgraded ≡ true → Entered (some ref)
    unfolding run call
    joined-Entered ref known good =
        let at_first = get_elem?-last b.handlers (joining ref k) in
        let end = record (met ref) {
          systems = get_or_create ref b.systems;
          handlers = set (met ref).handlers first (attaching ref k);
        } in
        let goes =
          calls_then c first (joining ref k) (attaching ref k) [] 0 [] (met ref)
            (record (met ref) { systems = get_or_create ref b.systems }) end at_first refl refl in
        let (e, held, soon, mine) = redeemed_entry t now b.tickets ref known in
        record {
          last = end;
          runs = meets_then ref _ end known good (rw good goes);
          tickets = λ u. redeem-lookup t u now b.tickets;
          same = λ a. system_of-get_or_create ref a b.systems;
          outcome = inl (record {
            entry = e;
            held = held;
            in_time = soon;
            met = good;
            handlers = rw mine (set-last b.handlers (joining ref k) (attaching ref k));
            sinks = rw mine refl;
            session = rw mine (lookup-get_or_create ref b.systems);
          });
        }

    -- In every state of the process, when a request for the socket comes with a new connection, its
    -- handler can make its call of `GetOrCreate` right after the ticket is redeemed. Then the ticket is
    -- gone and no other has changed, and no actor's session has, where an actor without one counts as
    -- having a new one. If the ticket was held and in time and the upgrade succeeds, its actor has a
    -- session, and one more handler is there, whose next call attaches this connection to that actor;
    -- otherwise no handler, connection or session is new.
    pub enters-Entered : Entered redeemed.1
    enters-Entered = elim (Option-cases redeemed.1) [
      | inl unknown ↦ rw unknown (unknown-Entered unknown)
      | inr (ref, known) ↦ elim (Bool-cases upgraded) [
        | inl good ↦ rw known (joined-Entered ref known good)
        | inr refused ↦ rw known (refused-Entered ref known refused)
      ]
    ]
