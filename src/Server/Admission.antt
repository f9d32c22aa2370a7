-- ===== src/Server/Admission.antt =====
-- What apps.connections.open grants, over every branch of `handleConnectionsOpen` in
-- cmd/egress-broker/server.go.
use substrate_ws_poc.Prelude.{
  ℕ, ◌+◌, ◌≤◌, true, false, [], ◌∷◌, ◌++◌, some, ◌≡◌, refl, ◌≢◌, arith, ◌⊎◌, ◌==◌, eq_iff,
  Bool-cases, inl, inr, eq_refl,
}
use substrate_ws_poc.Prelude.Bytes.{Bytes, bytes_eq}
use substrate_ws_poc.Prelude.Dict.{lookup, lookup-insert}
use substrate_ws_poc.Actor.{ActorRef, to_string, actor_eq}
use substrate_ws_poc.Actor.Parse.{IsNamed, parse_actor_ref_iff}
use substrate_ws_poc.Session.State.{Task, done}
use substrate_ws_poc.Session.Ops.{ensure_started}
use substrate_ws_poc.Registry
use substrate_ws_poc.Registry.{get_or_create, lookup-start, task-start}
use substrate_ws_poc.Server.Tokens.{bearer_token, trim_space}
use substrate_ws_poc.Server.Tickets.{
  Tickets, ticket_life, issue_ticket, redeem_ticket, redeem-issue,
}
use substrate_ws_poc.Server.Locate.{located, failed, Outcome-cases}
use substrate_ws_poc.Server.Open.{
  Server, OpenRequest, World, golden_atespace, identify, handle_connections_open,
}

to_string-ne-nil : (r : ActorRef) → to_string r ≢ []
unfolding to_string
to_string-ne-nil r = ne r.atespace
  where
    ne : (a : Bytes) → a ++ (b'/' ∷ r.name) ≢ []
    ne [] = cc
    ne (x ∷ a) = cc

-- If the trimmed header is the text of an identity whose parts are not empty and hold no slash, the
-- caller is that identity, whatever the locator would answer.
identify-header :
    (w : World) (r : OpenRequest) (ref : ActorRef)
    → IsNamed ref
    → trim_space r.actor_header ≡ to_string ref
    → identify w r ≡ located ref
unfolding identify
identify-header w r ref v h =
    let read = (parse_actor_ref_iff (to_string ref) ref).1 (refl, v) in
    ground (arith, read, to_string-ne-nil ref, eq_iff (trim_space r.actor_header) [])

-- The actor is known, its ticket will attach it, and only a real actor has its session started; the
-- other tickets and sessions are kept.
pub record IsGranted (w : World) (r : OpenRequest) (s t : Server) (task : Task) : Type 0 where
  pub ref : ActorRef
  pub identified : identify w r ≡ located ref
  pub ticket :
      (later : ℕ)
      → later ≤ w.now + ticket_life
      → (redeem_ticket w.ticket later t.tickets).1 ≡ some ref
  pub kept : (u : Bytes) → u ≢ w.ticket → lookup u t.tickets ≡ lookup u s.tickets
  pub golden : ref.atespace ≡ golden_atespace → (t.sessions ≡ s.sessions) × (task ≡ done)
  pub real :
      ref.atespace ≢ golden_atespace
      → (Registry.lookup ref t.sessions
          ≡ some (ensure_started (bearer_token r.authorization) (get_or_create ref s.sessions).1).0)
        × (task
            ≡ (ensure_started (bearer_token r.authorization) (get_or_create ref s.sessions).1).1)
  pub others :
      (other : ActorRef)
      → other ≢ ref
      → Registry.lookup other t.sessions ≡ Registry.lookup other s.sessions

other-issue :
    (ref : ActorRef) (t u : Bytes) (now : ℕ) (m : Tickets)
    → u ≢ t
    → lookup u (issue_ticket ref t now m) ≡ lookup u m
unfolding issue_ticket
other-issue ref t u now m n =
    ground
      (arith, lookup-insert t u (record { ref = ref; expires = now + ticket_life }) m, eq_iff t u)

module _ (w : World) (r : OpenRequest) (s : Server) where
  IsGranted-golden :
      (ref : ActorRef)
      → (bearer_token r.authorization == []) ≡ false
      → identify w r ≡ located ref
      → (ref.atespace == golden_atespace) ≡ true
      → let (t, answer, task) = handle_connections_open w r s in IsGranted w r s t task
  unfolding handle_connections_open
  IsGranted-golden ref token here golden =
      rw (token, here, golden, handle_connections_open)
        (record {
          ref = ref;
          identified = here;
          ticket = λ later soon. ground (arith, redeem-issue ref w.ticket w.now later s.tickets);
          kept = λ u n. other-issue ref w.ticket u w.now s.tickets n;
          golden = λ g. (refl, refl);
          real = λ n. absurd (n ((eq_iff ref.atespace golden_atespace).0 golden));
          others = λ other n. refl;
        })

  IsGranted-real :
      (ref : ActorRef)
      → (bearer_token r.authorization == []) ≡ false
      → identify w r ≡ located ref
      → (ref.atespace == golden_atespace) ≡ false
      → let (t, answer, task) = handle_connections_open w r s in IsGranted w r s t task
  unfolding handle_connections_open
  IsGranted-real ref token here real =
      let bearer = bearer_token r.authorization in
      rw (token, here, real, handle_connections_open)
        (record {
          ref = ref;
          identified = here;
          ticket = λ later soon. ground (arith, redeem-issue ref w.ticket w.now later s.tickets);
          kept = λ u n. other-issue ref w.ticket u w.now s.tickets n;
          golden = λ g. absurd (ground (arith, eq_iff ref.atespace golden_atespace));
          real = λ n. (
            ground (arith, lookup-start ref ref bearer s.sessions, eq_refl ref),
            task-start ref bearer s.sessions,
          );
          others =
              λ other n. ground (arith, lookup-start ref other bearer s.sessions, eq_iff ref other);
        })

  -- The handler either refuses, which changes nothing and happens only for want of a token or of an
  -- identity, or grants: the actor is identified, its ticket is good for two minutes and no other
  -- ticket changes, its session exists and is started unless it is the golden template, and no other
  -- actor's session changes.
  pub handle_connections_open-IsGranted :
      let (t, answer, task) = handle_connections_open w r s in
      ((answer.ok ≡ false)
        × (t ≡ s)
        × (task ≡ done)
        × ((bearer_token r.authorization ≡ []) ⊎ ((e : Bytes) × (identify w r ≡ failed e))))
      ⊎ ((answer.ok ≡ true) × IsGranted w r s t task)
  unfolding handle_connections_open
  handle_connections_open-IsGranted = elim (Bool-cases (bearer_token r.authorization == [])) [
    | inl empty ↦ inl (
      ground arith,
      ground arith,
      ground arith,
      inl ((eq_iff (bearer_token r.authorization) []).0 empty),
    )
    | inr token ↦ elim (Outcome-cases (identify w r)) [
      | inr (e, lost) ↦ inl (ground arith, ground arith, ground arith, inr (e, lost))
      | inl (ref, here) ↦ elim (Bool-cases (ref.atespace == golden_atespace)) [
        | inl golden ↦ inr (ground arith, IsGranted-golden ref token here golden)
        | inr real ↦ inr (ground arith, IsGranted-real ref token here real)
      ]
    ]
  ]
