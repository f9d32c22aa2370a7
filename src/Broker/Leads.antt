-- ===== src/Broker/Leads.antt =====
-- The steps of one actor's own requests to cmd/egress-broker/server.go and of its connection, while
-- nothing else in the process moves.
use substrate_ws_poc.Prelude.{
  ℕ, suc, ◌<◌, ◌≤◌, Bool, true, false, List, [], ◌∷◌, ◌++◌, Option, none, some, ◌≡◌, refl, ap, ◌∙◌,
  arith, leb, ◌==◌, nat_eq, eq_refl, Option-cases, inl, inr, get_elem?, set, length,
  get_elem?-set_self,
}
use substrate_ws_poc.Prelude.Bytes.{Bytes, bytes_eq}
use substrate_ws_poc.Prelude.Dict.{lookup, insert, lookup-insert_self}
use substrate_ws_poc.Actor.{ActorRef, actor_eq}
use substrate_ws_poc.SocketMode.{Json}
use substrate_ws_poc.Session.State.{Config}
use substrate_ws_poc.Session.Ops.{ensure_started}
use substrate_ws_poc.Session.Sections.{starts}
use substrate_ws_poc.System.State.{System, new_system}
use substrate_ws_poc.System.Steps.{moves, connects, runs_region, goes, beats}
use substrate_ws_poc.System.Steps
use substrate_ws_poc.System.Alone.{Alone, stays, goes_on, beats_on}
use substrate_ws_poc.Broker.State.{
  Handler, starting, issuing, attaching, returned, Systems, Service, system_of,
}
use substrate_ws_poc.Broker.Backed.{Sinks}
use substrate_ws_poc.Broker.Steps.{
  Event, opens, enters, handles, acts, caller_of, get_or_create, started_by, is_own, at, call, step,
}

is_caller : ActorRef → Option (ActorRef × Bytes) → Bool
is_caller ref none = false
is_caller ref (some (a, token)) = a == ref

-- A request of the actor, a request with the connection, a handler from the n-th on, or a step of the
-- actor's goroutines in which no write fails.
unfoldable pub is_of : ActorRef → ℕ → ℕ → Event → Bool
unfolding is_caller
is_of ref n k (opens w r) = is_caller ref (caller_of w r)
is_of ref n k (enters t m upgraded j) = j == k
is_of ref n k (handles i t m) = leb n i
is_of ref n k (acts a (moves i (goes ids))) = a == ref
is_of ref n k (acts a (moves i beats)) = a == ref
is_of ref n k _ = false

-- What `GetOrCreate` gives the handler.
pub lookup-get_or_create :
    (ref : ActorRef) (m : Systems) → lookup ref (get_or_create ref m) ≡ some (system_of ref m)
unfolding get_or_create system_of
lookup-get_or_create ref m = elim (Option-cases (lookup ref m)) [
  | inl unknown ↦ rw (unknown, get_or_create) (lookup-insert_self ref (new_system ref) m)
  | inr (y, known) ↦ rw (known, get_or_create) known
]

pub length-set : (xs : List Handler) (i : ℕ) (h : Handler) → length (set xs i h) ≡ length xs
length-set [] i h = refl
length-set (x ∷ xs) ℕ.zero h = refl
length-set (x ∷ xs) (suc i) h = ap suc (length-set xs i h)

pub get_elem?-last :
    (xs : List Handler) (h : Handler) → get_elem? (xs ++ h ∷ []) (length xs) ≡ some h
get_elem?-last [] h = refl
get_elem?-last (x ∷ xs) h = get_elem?-last xs h

module _ ⦃json : Json⦄ (c : Config) (ref : ActorRef) (n k : ℕ) where
  -- Steps of the actor alone.
  pub data Leads (b : Service) : Service → Type 0 where
    begins : Leads b b
    then_takes :
        (m z : Service) (e : Event)
        → Leads b m
        → is_of ref n k e ≡ true
        → step c e m ≡ some z
        → Leads b z

  -- They lead to a state in which the i-th handler is before this call, and the actor has this session.
  pub record Stage (b : Service) (sinks : Sinks) (i : ℕ) (h : Handler) (y : System) : Type 0 where
    pub last : Service
    pub leads : Leads b last
    pub here : get_elem? last.handlers i ≡ some h
    pub known : lookup ref last.systems ≡ some y
    pub same : last.sinks ≡ sinks
    pub late : n ≤ i
    pub many : i < length last.handlers

  pub at_known :
      (e : Steps.Event) (b : Service) (y z : System)
      → lookup ref b.systems ≡ some y
      → Steps.step c e y ≡ some z
      → at c ref e b ≡ some (record b { systems = insert ref z b.systems })
  unfolding at
  at_known e b y z known takes = rw (known, takes) refl

  pub step_handles :
      (i : ℕ) (h : Handler) (t : Bytes) (m : ℕ) (b b' : Service) (h' : Handler)
      → get_elem? b.handlers i ≡ some h
      → call c h t m b ≡ some (b', h')
      → step c (handles i t m) b ≡ some (record b' { handlers = set b.handlers i h' })
  unfolding step
  step_handles i h t m b b' h' here called = rw (here, called) refl

  pub call_starting :
      (token t : Bytes) (m : ℕ) (b : Service) (y z : System)
      → lookup ref b.systems ≡ some y
      → Steps.step c (runs_region (starts token)) y ≡ some z
      → call c (starting ref token) t m b
        ≡ some (
          record b {
            systems = insert ref z b.systems;
            loops = started_by ref (ensure_started token y.shared.session).1 b.loops;
          },
          issuing ref,
        )
  unfolding call
  call_starting token t m b y z known takes = rw (known, takes) refl

  pub call_attaching :
      (t : Bytes) (m : ℕ) (b : Service) (y z : System)
      → lookup ref b.systems ≡ some y
      → Steps.step c (connects k) y ≡ some z
      → call c (attaching ref k) t m b
        ≡ some (record b { systems = insert ref z b.systems }, returned)
  unfolding call
  call_attaching t m b y z known takes = rw (known, takes) refl

  -- The handler's next call.
  pub next :
      (b : Service) (sinks : Sinks) (i : ℕ) (h : Handler) (y : System) (s : Stage b sinks i h y)
      (t : Bytes) (m : ℕ) (b' : Service) (h' : Handler) (y' : System)
      → call c h t m s.last ≡ some (b', h')
      → lookup ref b'.systems ≡ some y'
      → b'.sinks ≡ s.last.sinks
      → Stage b sinks i h' y'
  unfolding is_of
  next b sinks i h y s t m b' h' y' called known kept = record {
    last = record b' { handlers = set s.last.handlers i h' };
    leads =
        then_takes s.last (record b' { handlers = set s.last.handlers i h' }) (handles i t m)
          s.leads (ground (arith, s.late)) (step_handles i h t m s.last b' h' s.here called);
    here = get_elem?-set_self s.last.handlers i h h' s.here;
    known = known;
    same = kept ∙ s.same;
    late = s.late;
    many = omega (arith, s.many, length-set s.last.handlers i h');
  }

  acts_own :
      (e : Steps.Event) (b m : Service) (y z : System)
      → Leads b m
      → lookup ref m.systems ≡ some y
      → is_of ref n k (acts ref e) ≡ true
      → is_own ref m.loops e ≡ true
      → Steps.step c e y ≡ some z
      → (last : Service) × Leads b last × (lookup ref last.systems ≡ some z)
  unfolding step
  acts_own e b m y z l known of_actor own takes =
      let last = record m { systems = insert ref z m.systems } in
      (
        last,
        then_takes m last (acts ref e) l of_actor (rw own (at_known e m y z known takes)),
        lookup-insert_self ref z m.systems,
      )

  -- The actor's goroutine goes on alone.
  pub follows-Alone :
      (b m : Service) (i : ℕ) (ids : ℕ → Bytes) (y z : System)
      → Leads b m
      → lookup ref m.systems ≡ some y
      → Alone c i ids y z
      → (last : Service) × Leads b last × (lookup ref last.systems ≡ some z)
  unfolding is_of is_own
  follows-Alone b m i ids y _ l known stays = (m, l, known)
  follows-Alone b m i ids y _ l known (goes_on u z a takes) =
      let (last, leads, there) = follows-Alone b m i ids y u l known a in
      acts_own (moves i (goes ids)) b last u z leads there (eq_refl ref) refl takes
  follows-Alone b m i ids y _ l known (beats_on u z a takes) =
      let (last, leads, there) = follows-Alone b m i ids y u l known a in
      acts_own (moves i beats) b last u z leads there (eq_refl ref) refl takes
