-- ===== src/Broker/Views.antt =====
-- The sessions and tickets of the process, as a handler of cmd/egress-broker/server.go that runs alone
-- sees them.
use substrate_ws_poc.Prelude.{
  ℕ, true, false, ◌==◌, List, [], ◌∷◌, Option, none, some, ◌≡◌, refl, sym, ap, arith, Option-cases,
  inl, inr, get_elem?, set,
}
use substrate_ws_poc.Prelude.Bytes.{Bytes, bytes_eq}
use substrate_ws_poc.Prelude.Dict.{lookup, insert}
use substrate_ws_poc.Actor.{ActorRef, actor_eq}
use substrate_ws_poc.SocketMode.{Json}
use substrate_ws_poc.Session.State.{Config, Session, new_session}
use substrate_ws_poc.Registry.{Sessions}
use substrate_ws_poc.Registry
use substrate_ws_poc.Server.Open.{Settings, Server, World, OpenRequest, identify}
use substrate_ws_poc.System.State.{System, new_system}
use substrate_ws_poc.Broker.State.{
  Handler, creating, starting, issuing, joining, attaching, returned, Systems, Service, system_of,
}
use substrate_ws_poc.Broker.Steps.{Event, handles, caller_of, get_or_create, call, step, run}
use substrate_ws_poc.Server.Tokens.{bearer_token}
use substrate_ws_poc.Server.Locate.{located, failed}

-- How many calls a handler has left.
abbrev pub calls_left : Handler → ℕ
calls_left (creating ref token) = 3
calls_left (starting ref token) = 2
calls_left (issuing ref) = 1
calls_left (joining ref k) = 2
calls_left (attaching ref k) = 1
calls_left returned = 0

-- The sessions without their goroutines.
unfoldable pub sessions_of : Systems → Sessions
sessions_of [] = []
sessions_of ((ref, y) ∷ m) = (ref, y.shared.session) ∷ sessions_of m

session_of : Option System → Option Session
session_of none = none
session_of (some y) = some y.shared.session

lookup-sessions_of :
    (ref : ActorRef) (m : Systems) → lookup ref (sessions_of m) ≡ session_of (lookup ref m)
unfolding sessions_of lookup session_of
lookup-sessions_of ref [] = refl
lookup-sessions_of ref ((a, y) ∷ m) = ground (arith, lookup-sessions_of ref m)

pub insert-sessions_of :
    (ref : ActorRef) (z : System) (m : Systems)
    → sessions_of (insert ref z m) ≡ insert ref z.shared.session (sessions_of m)
unfolding sessions_of insert
insert-sessions_of ref z [] = refl
insert-sessions_of ref z ((a, y) ∷ m) = ground (arith, insert-sessions_of ref z m)

-- `Server` as its handlers see it.
abbrev pub server_of : Settings → Service → Server
server_of settings b = record {
  settings = settings;
  sessions = sessions_of b.systems;
  tickets = b.tickets;
}

pub get_or_create-sessions_of :
    (ref : ActorRef) (m : Systems)
    → Registry.get_or_create ref (sessions_of m)
      ≡ (sessions_of (get_or_create ref m), (system_of ref m).shared.session)
unfolding Registry.get_or_create Registry.lookup get_or_create new_system system_of session_of
get_or_create-sessions_of ref m = elim (Option-cases (lookup ref m)) [
  | inl unknown ↦
      rw (lookup-sessions_of, unknown)
        (ap (λ u. (u, new_session ref)) (sym (insert-sessions_of ref (new_system ref) m)))
  | inr (y, known) ↦ rw (lookup-sessions_of, known) refl
]

module _ ⦃json : Json⦄ (c : Config) where
  -- One more call of the i-th handler, and then the others.
  pub calls_then :
      (i : ℕ) (h h' : Handler) (t : Bytes) (n : ℕ) (es : List Event) (b m z : Service)
      → get_elem? b.handlers i ≡ some h
      → call c h t n b ≡ some (m, h')
      → run c es (record m { handlers = set b.handlers i h' }) ≡ some z
      → run c (handles i t n ∷ es) b ≡ some z
  unfolding run step
  calls_then i h h' t n es b m z here called later = rw (here, called) later

-- Who the handler of apps.connections.open goes on for.
module _ (w : World) (r : OpenRequest) where
  pub none_asks : (bearer_token r.authorization == []) ≡ true → caller_of w r ≡ none
  unfolding caller_of
  none_asks empty = rw empty refl

  pub lost_asks :
      (e : Bytes)
      → (bearer_token r.authorization == []) ≡ false
      → identify w r ≡ failed e
      → caller_of w r ≡ none
  unfolding caller_of
  lost_asks e token lost = rw (token, lost) refl

  pub found_asks :
      (ref : ActorRef)
      → (bearer_token r.authorization == []) ≡ false
      → identify w r ≡ located ref
      → caller_of w r ≡ some (ref, bearer_token r.authorization)
  unfolding caller_of
  found_asks ref token here = rw (token, here) refl
