-- ===== src/Registry.antt =====
-- `Registry` of cmd/egress-broker/registry.go: the sessions by actor. A pointer to a session is its
-- key, so a method called through the pointer writes the session back under it.
use substrate_ws_poc.Prelude.{
  List, Option, none, some, ◌≡◌, refl, arith, if◌then◌else◌, ◌==◌, Bool-cases, false, inl, inr,
}
use substrate_ws_poc.Prelude.Bytes.{Bytes}
use substrate_ws_poc.Prelude.Dict
use substrate_ws_poc.Prelude.Dict.{insert, lookup-insert, lookup-insert_self}
use substrate_ws_poc.Actor.{ActorRef, actor_eq}
use substrate_ws_poc.Session.State.{Session, Task, new_session}
use substrate_ws_poc.Session.Ops.{ensure_started}

abbrev pub Sessions : Type 0
Sessions = List (ActorRef × Session)

-- `Lookup`.
unfoldable pub lookup : ActorRef → Sessions → Option Session
lookup ref m = Dict.lookup ref m

create : ActorRef → Sessions → Option Session → Sessions × Session
create ref m none = (insert ref (new_session ref) m, new_session ref)
create ref m (some s) = (m, s)

unfoldable pub get_or_create : ActorRef → Sessions → Sessions × Session
unfolding create lookup
get_or_create ref m = create ref m (lookup ref m)

-- `GetOrCreate(ref).EnsureStarted(token)`.
unfoldable pub start : ActorRef → Bytes → Sessions → Sessions × Task
unfolding get_or_create
start ref token m =
    let (m', s) = get_or_create ref m in
    let (t, task) = ensure_started token s in (insert ref t m', task)

-- Asking again for the session of an actor gives the same session and changes nothing.
get_or_create-again :
    (ref : ActorRef) (m : Sessions)
    → get_or_create ref (get_or_create ref m).0 ≡ get_or_create ref m
unfolding get_or_create
get_or_create-again ref m = ground (arith, lookup-insert_self ref (new_session ref) m)

lookup-create :
    (ref other : ActorRef) (m : Sessions)
    → (ref == other) ≡ false
    → Dict.lookup other (get_or_create ref m).0 ≡ Dict.lookup other m
unfolding get_or_create
lookup-create ref other m h = ground (arith, lookup-insert ref other (new_session ref) m)

-- Starting an actor's session puts the started one under that actor and leaves every other actor's
-- session as it was.
pub lookup-start :
    (ref other : ActorRef) (token : Bytes) (m : Sessions)
    → lookup other (start ref token m).0 ≡ (
        if ref == other
        then some (ensure_started token (get_or_create ref m).1).0
        else lookup other m)
unfolding start lookup
lookup-start ref other token m = elim (Bool-cases (ref == other)) [
  | inl same ↦ rw (lookup-insert, same)
  | inr differs ↦ rw (lookup-insert, differs) (lookup-create ref other m differs)
]

pub task-start :
    (ref : ActorRef) (token : Bytes) (m : Sessions)
    → (start ref token m).1 ≡ (ensure_started token (get_or_create ref m).1).1
unfolding start
task-start ref token m = refl
