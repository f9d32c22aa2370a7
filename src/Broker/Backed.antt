-- ===== src/Broker/Backed.antt =====
-- Whom the handlers of cmd/egress-broker/server.go work for: every ticket, handler and connection is
-- that of a caller who was identified.
use substrate_ws_poc.Prelude.{
  ℕ, Bool, true, false, not, ◌&&◌, ◌||◌, List, [], ◌∷◌, Option, none, some, ◌≡◌, refl, arith, ◌==◌,
  nat_eq, eq_iff, is_none, Bool-cases, Option-cases, inl, inr, All,
}
use substrate_ws_poc.Prelude.Bytes.{Bytes, bytes_eq}
use substrate_ws_poc.Prelude.Dict.{lookup}
use substrate_ws_poc.Actor.{ActorRef, actor_eq}
use substrate_ws_poc.Server.Tokens.{bearer_token}
use substrate_ws_poc.Server.Tickets.{Tickets}
use substrate_ws_poc.Server.Locate.{Outcome-cases}
use substrate_ws_poc.Server.Open.{World, OpenRequest, golden_atespace, identify}
use substrate_ws_poc.Broker.State.{
  Handler, creating, starting, issuing, joining, attaching, returned, Service,
}
use substrate_ws_poc.Broker.Steps.{caller_of, admit, entered}

abbrev pub Asked : Type 0
Asked = List (ActorRef × Bytes)

abbrev pub Sinks : Type 0
Sinks = List (ℕ × ActorRef)

-- The actor was identified as a caller of apps.connections.open, and with that token.
unfoldable pub asked_by : ActorRef → Asked → Bool
asked_by ref [] = false
asked_by ref ((a, u) ∷ rest) = a == ref || asked_by ref rest

unfoldable pub asked_with : ActorRef → Bytes → Asked → Bool
asked_with ref token [] = false
asked_with ref token ((a, u) ∷ rest) = (a == ref && u == token) || asked_with ref token rest

pub asked_with-asked_by :
    (ref : ActorRef) (token : Bytes) (asked : Asked)
    → asked_with ref token asked ≡ true
    → asked_by ref asked ≡ true
unfolding asked_with asked_by
asked_with-asked_by ref token [] h = cc
asked_with-asked_by ref token ((a, u) ∷ rest) h = ground (arith, asked_with-asked_by ref token rest)

is_for : ActorRef → Option ActorRef → Bool
is_for ref none = false
is_for ref (some a) = a == ref

-- The connection was upgraded for that actor.
unfoldable pub is_sink : ActorRef → ℕ → Sinks → Bool
unfolding is_for
is_sink ref k sinks = is_for ref (lookup k sinks)

pub is_sink-lookup :
    (ref : ActorRef) (k : ℕ) (sinks : Sinks)
    → is_sink ref k sinks ≡ true
    → lookup k sinks ≡ some ref
unfolding is_sink
is_sink-lookup ref k sinks h = elim (Option-cases (lookup k sinks)) [
  | inl never ↦ absurd (ground arith)
  | inr (a, there) ↦ ground (arith, eq_iff a ref)
]

-- A token that may start a read loop: a caller's, who is not the golden template.
abbrev pub is_given : ActorRef → Bytes → Asked → Bool
is_given ref token asked =
    asked_with ref token asked && not (ref.atespace == golden_atespace) && not (token == [])

abbrev pub is_backed : Asked → Sinks → Handler → Bool
is_backed asked sinks (creating ref token) = is_given ref token asked
is_backed asked sinks (starting ref token) = is_given ref token asked
is_backed asked sinks (issuing ref) = asked_by ref asked
is_backed asked sinks (joining ref k) = is_sink ref k sinks
is_backed asked sinks (attaching ref k) = is_sink ref k sinks
is_backed asked sinks returned = true

abbrev pub AreIssued : Asked → Tickets → Type 0
AreIssued asked m = All (λ e. asked_by e.1.ref asked ≡ true) m

abbrev pub AreUpgraded : Asked → Sinks → Type 0
AreUpgraded asked sinks = All (λ s. asked_by s.1 asked ≡ true) sinks

pub record IsBacked (b : Service) : Type 0 where
  pub tickets : AreIssued b.asked b.tickets
  pub handlers : All (λ h. is_backed b.asked b.sinks h ≡ true) b.handlers
  pub sinks : AreUpgraded b.asked b.sinks

-- A later state knows the callers and the connections of an earlier one.
pub record Grows (b b' : Service) : Type 0 where
  pub asked : (ref : ActorRef) → asked_by ref b.asked ≡ true → asked_by ref b'.asked ≡ true
  pub with :
      (ref : ActorRef) (token : Bytes)
      → asked_with ref token b.asked ≡ true
      → asked_with ref token b'.asked ≡ true
  pub sinks :
      (ref : ActorRef) (k : ℕ) → is_sink ref k b.sinks ≡ true → is_sink ref k b'.sinks ≡ true

pub Grows-is_backed :
    (b b' : Service) (h : Handler)
    → Grows b b'
    → is_backed b.asked b.sinks h ≡ true
    → is_backed b'.asked b'.sinks h ≡ true
Grows-is_backed b b' (creating ref token) g h = ground (arith, g.with ref token)
Grows-is_backed b b' (starting ref token) g h = ground (arith, g.with ref token)
Grows-is_backed b b' (issuing ref) g h = g.asked ref h
Grows-is_backed b b' (joining ref k) g h = g.sinks ref k h
Grows-is_backed b b' (attaching ref k) g h = g.sinks ref k h
Grows-is_backed b b' returned g h = refl

pub Grows-same : (b b' : Service) → b'.asked ≡ b.asked → b'.sinks ≡ b.sinks → Grows b b'
Grows-same b b' asked sinks = record {
  asked = λ ref h. rw asked h;
  with = λ ref token h. rw asked h;
  sinks = λ ref k h. rw sinks h;
}

pub caller_of-token :
    (w : World) (r : OpenRequest) (ref : ActorRef) (token : Bytes)
    → caller_of w r ≡ some (ref, token)
    → (token == []) ≡ false
unfolding caller_of
caller_of-token w r ref token h = elim (Bool-cases (bearer_token r.authorization == [])) [
  | inl empty ↦ absurd (ground arith)
  | inr given ↦ elim (Outcome-cases (identify w r)) [
    | inl (a, here) ↦ ground arith
    | inr (e, lost) ↦ absurd (ground arith)
  ]
]

pub admit-Grows : (who : Option (ActorRef × Bytes)) (b : Service) → Grows b (admit who b)
unfolding admit asked_by asked_with
admit-Grows none b = Grows-same b b refl refl
admit-Grows (some (ref, token)) b = record {
  asked = λ a h. ground arith;
  with = λ a u h. ground arith;
  sinks = λ a k h. h;
}

pub entered-Grows :
    (k : ℕ) (upgraded : Bool) (r : Tickets × Option ActorRef) (b : Service)
    → is_none (lookup k b.sinks) ≡ true
    → Grows b (entered k upgraded r b)
unfolding entered is_sink lookup
entered-Grows k upgraded (m, none) b new = Grows-same b _ refl refl
entered-Grows k false (m, some ref) b new = Grows-same b _ refl refl
entered-Grows k true (m, some ref) b new = record {
  asked = λ a h. h;
  with = λ a u h. h;
  sinks = λ a j h. ground (arith, eq_iff k j);
}
