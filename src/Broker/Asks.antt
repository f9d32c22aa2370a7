-- ===== src/Broker/Asks.antt =====
-- The requests of an actor that comes back: `handleConnectionsOpen` and the start of
-- `handleActorSocket` in cmd/egress-broker/server.go, one call after another.
use substrate_ws_poc.Prelude.{
  ℕ, ◌+◌, ◌≤◌, true, false, [], ◌∷◌, ◌++◌, Option, none, some, ◌≡◌, ◌≢◌, refl, ap, arith, ◌==◌,
  nat_eq, eq_iff, eq_refl, set, length, get_elem?-set_self, length-append,
}
use substrate_ws_poc.Prelude.Bytes.{Bytes, bytes_eq}
use substrate_ws_poc.Prelude.Dict.{lookup, insert, lookup-insert_self}
use substrate_ws_poc.Actor.{ActorRef, actor_eq}
use substrate_ws_poc.SocketMode.{Json}
use substrate_ws_poc.Session.State.{Config, Session}
use substrate_ws_poc.Session.Ops.{ensure_started}
use substrate_ws_poc.Session.Sections.{exec}
use substrate_ws_poc.Server.Tickets.{
  Tickets, ticket_life, issue_ticket, redeem_ticket, redeem-issue,
}
use substrate_ws_poc.Server.Open.{World, OpenRequest, golden_atespace}
use substrate_ws_poc.System.State.{System}
use substrate_ws_poc.System.Steps.{connects, runs_region, with_session}
use substrate_ws_poc.System.Steps
use substrate_ws_poc.Broker.State.{
  creating, starting, issuing, joining, returned, Service, system_of,
}
use substrate_ws_poc.Broker.Steps.{
  opens, enters, handles, caller_of, admit, entered, get_or_create, started_by, call, step,
}
use substrate_ws_poc.Broker.Leads.{
  is_of, lookup-get_or_create, get_elem?-last, Leads, begins, then_takes, Stage, call_starting,
  length-set, next,
}

pub ensure_started-buffer :
    (token : Bytes) (s : Session) → (ensure_started token s).0.buffer ≡ s.buffer
unfolding ensure_started
ensure_started-buffer token s = ground arith

entered-served :
    (k : ℕ) (ref : ActorRef) (r : Tickets × Option ActorRef) (b : Service)
    → r.1 ≡ some ref
    → entered k true r b ≡ record b {
      tickets = r.0;
      handlers = b.handlers ++ joining ref k ∷ [];
      sinks = (k, ref) ∷ b.sinks;
    }
unfolding entered
entered-served k ref (m, none) b h = cc
entered-served k ref (m, some a) b h = ground arith

module _ ⦃json : Json⦄ (c : Config) (ref : ActorRef) (token : Bytes) (k : ℕ) (b : Service) where
  abbrev pub first : ℕ
  first = length b.handlers

  abbrev pub before : System
  before = system_of ref b.systems

  -- The actor's session once its token is recorded.
  abbrev pub given : System
  given = record before {
    shared = with_session before.shared (ensure_started token before.shared.session).0;
  }

  abbrev pub Own : Service → Type 0
  Own = Leads c ref first k b

  -- The bootstrap request comes, and `GetOrCreate` is called.
  pub asked-Stage :
      (w : World) (r : OpenRequest)
      → caller_of w r ≡ some (ref, token)
      → ref.atespace ≢ golden_atespace
      → Stage c ref first k b b.sinks first (starting ref token) before
  unfolding is_of step admit call
  asked-Stage w r who real =
      let b1 = record b {
        handlers = b.handlers ++ creating ref token ∷ [];
        asked = (ref, token) ∷ b.asked;
      } in
      let b2 = record b1 {
        systems = get_or_create ref b.systems;
        handlers = set b1.handlers first (starting ref token);
      } in
      let no_golden : (ref.atespace == golden_atespace) ≡ false =
        ground (arith, eq_iff ref.atespace golden_atespace) in
      let at_first = get_elem?-last b.handlers (creating ref token) in
      let leads : Own b1 =
        then_takes b b1 (opens w r) begins (rw who (eq_refl ref)) (rw (who, no_golden) refl) in
      record {
        last = b2;
        leads = then_takes b1 b2 (handles first [] 0) leads (ground arith) (rw at_first refl);
        here =
            get_elem?-set_self b1.handlers first (creating ref token) (starting ref token) at_first;
        known = lookup-get_or_create ref b.systems;
        same = refl;
        late = omega arith;
        many = omega (
          arith,
          length-set b1.handlers first (starting ref token),
          length-append b.handlers (creating ref token ∷ []),
        );
      }

  -- `EnsureStarted` is called.
  pub started-Stage :
      Stage c ref first k b b.sinks first (starting ref token) before
      → Stage c ref first k b b.sinks first (issuing ref) given
  unfolding Steps.step exec
  started-Stage s =
      let b' = record s.last {
        systems = insert ref given s.last.systems;
        loops = started_by ref (ensure_started token before.shared.session).1 s.last.loops;
      } in
      next c ref first k b b.sinks first (starting ref token) before s [] 0 b' (issuing ref) given
        (call_starting c ref first k token [] 0 s.last before given s.known refl)
        (lookup-insert_self ref given s.last.systems) refl

  -- The ticket is issued, and in time the WebSocket's request comes with it.
  pub entered-Stage :
      (t : Bytes) (now later : ℕ)
      → later ≤ now + ticket_life
      → lookup k b.sinks ≡ none
      → Stage c ref first k b b.sinks first (issuing ref) given
      → (i : ℕ) × Stage c ref first k b ((k, ref) ∷ b.sinks) i (joining ref k) given
  unfolding call step is_of
  entered-Stage t now later soon fresh s =
      let b1 = record s.last {
        tickets = issue_ticket ref t now s.last.tickets;
        handlers = set s.last.handlers first returned;
      } in
      let r = redeem_ticket t later b1.tickets in
      let b2 = record b1 {
        tickets = r.0;
        handlers = b1.handlers ++ joining ref k ∷ [];
        sinks = (k, ref) ∷ b1.sinks;
      } in
      let i = length b1.handlers in
      let good : r.1 ≡ some ref = ground (arith, redeem-issue ref t now later s.last.tickets) in
      let new : lookup k b1.sinks ≡ none = rw s.same fresh in
      let leads : Own b1 =
        then_takes s.last b1 (handles first t now) s.leads (ground arith) (rw s.here refl) in
      (
        i,
        record {
          last = b2;
          leads =
              then_takes b1 b2 (enters t later true k) leads (eq_refl k)
                (rw new (ap some (entered-served k ref r b1 good)));
          here = get_elem?-last b1.handlers (joining ref k);
          known = s.known;
          same = ap (λ m. (k, ref) ∷ m) s.same;
          late = omega (arith, s.many, length-set s.last.handlers first returned);
          many = omega (arith, length-append b1.handlers (joining ref k ∷ []));
        },
      )
