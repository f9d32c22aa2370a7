-- ===== src/Broker/Moves.antt =====
-- What a step of the process does to the session of one actor: cmd/egress-broker/server.go calls the
-- methods of registry.go on it.
use substrate_ws_poc.Prelude.{
  ℕ, Bool, List, [], Option, none, some, ◌≡◌, refl, sym, ap, subst, arith, if◌then◌else◌, ◌==◌,
  eq_iff, Bool-cases, Option-cases, inl, inr, >>=-eq-some, get_elem?,
}
use substrate_ws_poc.Prelude.Bytes.{Bytes}
use substrate_ws_poc.Prelude.Dict.{lookup, insert, lookup-insert}
use substrate_ws_poc.Actor.{ActorRef, actor_eq}
use substrate_ws_poc.SocketMode.{Json}
use substrate_ws_poc.Session.State.{Config}
use substrate_ws_poc.Session.Ops.{ensure_started}
use substrate_ws_poc.Session.Sections.{starts}
use substrate_ws_poc.Server.Tickets.{Tickets, redeem_ticket}
use substrate_ws_poc.System.State.{System, new_system}
use substrate_ws_poc.System.Steps.{runs_region, connects}
use substrate_ws_poc.System.Steps
use substrate_ws_poc.System.Refines.{Input, heard_at}
use substrate_ws_poc.Broker.State.{
  Handler, creating, starting, issuing, joining, attaching, returned, Systems, Service, system_of,
}
use substrate_ws_poc.Broker.Steps.{
  Event, opens, enters, handles, acts, caller_of, admit, entered, get_or_create, started_by, is_own,
  at, call, step,
}

pub system_of-insert :
    (ref other : ActorRef) (z : System) (m : Systems)
    → system_of other (insert ref z m) ≡ (if ref == other then z else system_of other m)
unfolding system_of
system_of-insert ref other z m = ground (arith, lookup-insert ref other z m)

-- `GetOrCreate` changes no session.
pub system_of-get_or_create :
    (ref other : ActorRef) (m : Systems) → system_of other (get_or_create ref m) ≡ system_of other m
unfolding system_of get_or_create
system_of-get_or_create ref other m = elim (Option-cases (lookup ref m)) [
  | inr (y, known) ↦ rw (known, get_or_create) refl
  | inl unknown ↦ ground (arith, lookup-insert ref other (new_system ref) m, eq_iff ref other)
]

pub system_of-lookup :
    (ref : ActorRef) (m : Systems) (y : System) → lookup ref m ≡ some y → system_of ref m ≡ y
unfolding system_of
system_of-lookup ref m y known = rw known refl

-- What comes from outside for an actor's session with a step of the process.
abbrev pub heard_from : ActorRef → Event → List Input
heard_from ref (acts a e) = if a == ref then heard_at e else []
heard_from ref _ = []

pub admit-systems :
    (who : Option (ActorRef × Bytes)) (b : Service) → (admit who b).systems ≡ b.systems
unfolding admit
admit-systems none b = refl
admit-systems (some (ref, token)) b = refl

pub entered-systems :
    (k : ℕ) (r : Tickets × Option ActorRef) (b : Service)
    → (upgraded : Bool) → (entered k upgraded r b).systems ≡ b.systems
unfolding entered
entered-systems k (tickets, none) b upgraded = refl
entered-systems k (tickets, some ref) b upgraded = ground arith

unheard : (x : Bool) → ◌≡◌ {A = List Input} (if x then [] else []) []
unheard x = ground arith

module _ ⦃json : Json⦄ (c : Config) where
  -- The session and its goroutines are left alone, or take one step, with what comes from outside.
  pub data Moved (y z : System) : List Input → Type 0 where
    kept : z ≡ y → Moved y z []
    moved : (e : Steps.Event) → Steps.step c e y ≡ some z → Moved y z (heard_at e)

  -- The actor has a session, and its goroutines take the step.
  pub record At (ref : ActorRef) (e : Steps.Event) (b b' : Service) : Type 0 where
    pub before : System
    pub after : System
    pub known : lookup ref b.systems ≡ some before
    pub takes : Steps.step c e before ≡ some after
    pub now : b' ≡ record b { systems = insert ref after b.systems }

  pub at-At :
      (ref : ActorRef) (e : Steps.Event) (b b' : Service) → at c ref e b ≡ some b' → At ref e b b'
  unfolding at
  at-At ref e b b' h =
      let (y, known, next) = >>=-eq-some (lookup ref b.systems) _ h in
      let (z, takes, out) = >>=-eq-some (Steps.step c e y) _ next in
      record { before = y; after = z; known = known; takes = takes; now = ground arith }

  At-Moved :
      (ref other : ActorRef) (e : Steps.Event) (b b' : Service)
      → At ref e b b'
      → Moved
          (system_of other b.systems)
          (system_of other b'.systems)
          (if ref == other then heard_at e else [])
  At-Moved ref other e b b' a =
      let now : system_of other b'.systems
          ≡ (if ref == other then a.after else system_of other b.systems) =
        rw a.now (system_of-insert ref other a.after b.systems) in
      elim (Bool-cases (ref == other)) [
        | inr differs ↦ rw differs (kept (rw differs at now))
        | inl same ↦
            let before : system_of other b.systems ≡ a.before =
              rw (← (eq_iff ref other).0 same) (system_of-lookup ref b.systems a.before a.known) in
            rw (same, rw same at now, before) (moved e a.takes)
      ]

  -- A call of `EnsureStarted` is a region of the session, and may add a read loop.
  pub record Starting (ref : ActorRef) (token : Bytes) (b b' : Service) (h' : Handler)
      : Type 0 where
    pub system : System
    pub known : lookup ref b.systems ≡ some system
    pub middle : Service
    pub taken : At ref (runs_region (starts token)) b middle
    pub now : b' ≡ record middle {
      loops = started_by ref (ensure_started token system.shared.session).1 b.loops;
    }
    pub next : h' ≡ issuing ref

  pub call-Starting :
      (ref : ActorRef) (token t : Bytes) (n : ℕ) (b b' : Service) (h' : Handler)
      → call c (starting ref token) t n b ≡ some (b', h')
      → Starting ref token b b' h'
  unfolding call
  call-Starting ref token t n b b' h' e =
      let (y, known, next) = >>=-eq-some (lookup ref b.systems) _ e in
      let (m, taken, out) = >>=-eq-some (at c ref (runs_region (starts token)) b) _ next in
      record {
        system = y;
        known = known;
        middle = m;
        taken = at-At ref (runs_region (starts token)) b m taken;
        now = ground arith;
        next = ground arith;
      }

  pub call-Attaching :
      (ref : ActorRef) (k : ℕ) (t : Bytes) (n : ℕ) (b b' : Service) (h' : Handler)
      → call c (attaching ref k) t n b ≡ some (b', h')
      → At ref (connects k) b b' × (h' ≡ returned)
  unfolding call
  call-Attaching ref k t n b b' h' e =
      let (m, taken, out) = >>=-eq-some (at c ref (connects k) b) _ e in
      let same : m ≡ b' = ground arith in
      (subst (At ref (connects k) b) same (at-At ref (connects k) b m taken), ground arith)

  call-Moved :
      (ref : ActorRef) (h : Handler) (t : Bytes) (n : ℕ) (b b' : Service) (h' : Handler)
      → call c h t n b ≡ some (b', h')
      → Moved (system_of ref b.systems) (system_of ref b'.systems) []
  unfolding call
  call-Moved ref (creating a token) t n b b' h' e = kept (
      subst (λ m. system_of ref m ≡ system_of ref b.systems) (ground arith)
        (system_of-get_or_create a ref b.systems))
  call-Moved ref (starting a token) t n b b' h' e =
      let s = call-Starting a token t n b b' h' e in
      subst (λ m. Moved (system_of ref b.systems) (system_of ref m) [])
        (ap (λ u. u.systems) (sym s.now))
        (subst (Moved (system_of ref b.systems) (system_of ref s.middle.systems))
          (unheard (a == ref)) (At-Moved a ref (runs_region (starts token)) b s.middle s.taken))
  call-Moved ref (issuing a) t n b b' h' e = kept (ground arith)
  call-Moved ref (joining a k) t n b b' h' e = kept (
      subst (λ m. system_of ref m ≡ system_of ref b.systems) (ground arith)
        (system_of-get_or_create a ref b.systems))
  call-Moved ref (attaching a k) t n b b' h' e =
      let (taken, next) = call-Attaching a k t n b b' h' e in
      subst (Moved (system_of ref b.systems) (system_of ref b'.systems)) (unheard (a == ref))
        (At-Moved a ref (connects k) b b' taken)
  call-Moved ref returned t n b b' h' e = cc

  pub step-Moved :
      (ref : ActorRef) (e : Event) (b b' : Service)
      → step c e b ≡ some b'
      → Moved (system_of ref b.systems) (system_of ref b'.systems) (heard_from ref e)
  unfolding step
  step-Moved ref (opens w r) b b' e =
      kept (ap (system_of ref) (ground (arith, admit-systems (caller_of w r) b)))
  step-Moved ref (enters t n upgraded k) b b' e = kept (
      ap (system_of ref)
        (ground (arith, entered-systems k (redeem_ticket t n b.tickets) b upgraded)))
  step-Moved ref (handles i t n) b b' e =
      let (h, here, next) = >>=-eq-some (get_elem? b.handlers i) _ e in
      let ((b1, h'), called, out) = >>=-eq-some (call c h t n b) _ next in
      subst (λ m. Moved (system_of ref b.systems) (system_of ref m) []) (ground arith)
        (call-Moved ref h t n b b1 h' called)
  step-Moved ref (acts a e) b b' h = elim (Bool-cases (is_own a b.loops e)) [
    | inl own ↦ At-Moved a ref e b b' (at-At a e b b' (ground arith))
    | inr other ↦ absurd (ground arith)
  ]
