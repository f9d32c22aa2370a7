-- ===== src/Server/Tickets.antt =====
-- The tickets of cmd/egress-broker/server.go. The text of a new ticket is an argument, the result
-- of reading `crypto/rand`; times are nanoseconds.
use substrate_ws_poc.Prelude.{
  ℕ, ◌+◌, ◌*◌, ◌≤◌, List, [], ◌∷◌, Option, none, some, ◌≡◌, arith, ltb, if◌then◌else◌, ◌==◌, eq_iff,
  Option-cases, inl, inr, is_none,
}
use substrate_ws_poc.Prelude.Bytes.{Bytes, bytes_eq}
use substrate_ws_poc.Prelude.Dict.{
  lookup, insert, delete, lookup-insert, lookup-insert_self, lookup-delete,
}
use substrate_ws_poc.Actor.{ActorRef}

pub record TicketEntry : Type 0 where
  pub ref : ActorRef
  pub expires : ℕ

abbrev pub Tickets : Type 0
Tickets = List (Bytes × TicketEntry)

-- Two minutes.
abbrev pub ticket_life : ℕ
ticket_life = 2 * 60 * 1_000_000_000

unfoldable pub issue_ticket : ActorRef → Bytes → ℕ → Tickets → Tickets
issue_ticket ref t now m = insert t (record { ref = ref; expires = now + ticket_life }) m

redeem_entry : Bytes → ℕ → Tickets → Option TicketEntry → Tickets × Option ActorRef
redeem_entry t now m none = (delete t m, none)
redeem_entry t now m (some e) =
    if ltb e.expires now then (delete t m, none) else (delete t m, some e.ref)

unfoldable pub redeem_ticket : Bytes → ℕ → Tickets → Tickets × Option ActorRef
unfolding redeem_entry
redeem_ticket t now m = redeem_entry t now m (lookup t m)

-- Redeeming a ticket right after it was issued gives its actor until two minutes have passed, and
-- nothing afterwards.
pub redeem-issue :
    (ref : ActorRef) (t : Bytes) (now later : ℕ) (m : Tickets)
    → (redeem_ticket t later (issue_ticket ref t now m)).1
      ≡ (if ltb (now + ticket_life) later then none else some ref)
unfolding redeem_ticket issue_ticket
redeem-issue ref t now later m =
    ground (arith, lookup-insert_self t (record { ref = ref; expires = now + ticket_life }) m)

pub redeem-delete : (t : Bytes) (now : ℕ) (m : Tickets) → (redeem_ticket t now m).0 ≡ delete t m
unfolding redeem_ticket
redeem-delete t now m = elim (Option-cases (lookup t m)) [
  | inl unknown ↦ ground arith
  | inr (e, known) ↦ ground arith
]

-- Redeeming removes the ticket and no other, whatever the answer.
pub redeem-lookup :
    (t u : Bytes) (now : ℕ) (m : Tickets)
    → lookup u (redeem_ticket t now m).0 ≡ (if t == u then none else lookup u m)
redeem-lookup t u now m = rw (redeem-delete t now m) (lookup-delete t u m)

-- What happens to the tickets, in the order in which their mutex is held.
pub data Call : Type 0 where
  issues : ActorRef → Bytes → ℕ → Call
  redeems : Bytes → ℕ → Call

unfoldable pub run_calls : List Call → Tickets → Tickets × List (Bytes × ActorRef)
run_calls [] m = (m, [])
run_calls (issues ref t now ∷ rest) m = run_calls rest (issue_ticket ref t now m)
run_calls (redeems t now ∷ rest) m =
    let (m', got) = redeem_ticket t now m in
    let (end, grants) = run_calls rest m' in
    (end, elim got [ none ↦ grants | some ref ↦ (t, ref) ∷ grants ])

-- How often a ticket was issued, and how often it was granted.
unfoldable pub issued : Bytes → List Call → ℕ
issued t [] = 0
issued t (issues ref u now ∷ rest) = (if u == t then 1 else 0) + issued t rest
issued t (redeems u now ∷ rest) = issued t rest

unfoldable pub granted : Bytes → List (Bytes × ActorRef) → ℕ
granted t [] = 0
granted t ((u, ref) ∷ rest) = (if u == t then 1 else 0) + granted t rest

abbrev pub held : Bytes → Tickets → ℕ
held t m = if is_none (lookup t m) then 0 else 1

-- Over any sequence of calls, a ticket is granted, and still held, at most as often as it was issued
-- and held before.
pub granted-le-issued :
    (t : Bytes) (calls : List Call) (m : Tickets)
    → granted t (run_calls calls m).1 + held t (run_calls calls m).0 ≤ issued t calls + held t m
unfolding run_calls issued granted redeem_ticket issue_ticket
granted-le-issued t [] m = omega arith
granted-le-issued t (issues ref u now ∷ rest) m = ground (
  arith,
  granted-le-issued t rest (issue_ticket ref u now m),
  lookup-insert u t (record { ref = ref; expires = now + ticket_life }) m,
)
granted-le-issued t (redeems u now ∷ rest) m =
    ground (arith, granted-le-issued t rest (delete u m), lookup-delete u t m, eq_iff u t)
