-- ===== src/Actor/Ref.antt =====
-- `ActorRef` of cmd/egress-broker/ateapi.go.
use substrate_ws_poc.Prelude.{Bool, true, ◌&&◌, ◌∷◌, ◌++◌, ◌≡◌, ◌↔◌, arith, Eq, ◌==◌, eq_iff}
use substrate_ws_poc.Prelude.Bytes.{Bytes, bytes_eq}

pub record ActorRef : Type 0 where
  pub atespace : Bytes
  pub name : Bytes

-- `ActorRef.String`.
unfoldable pub to_string : ActorRef → Bytes
to_string r = r.atespace ++ (b'/' ∷ r.name)

-- Go's `==` on the struct, by which maps compare their keys.
unfoldable pub actor_beq : ActorRef → ActorRef → Bool
actor_beq a b = a.atespace == b.atespace && a.name == b.name

pub actor_beq_iff : (a b : ActorRef) → (actor_beq a b ≡ true) ↔ (a ≡ b)
unfolding actor_beq
actor_beq_iff a b = ground (arith, eq_iff a.atespace b.atespace, eq_iff a.name b.name)

instance abbrev pub actor_eq : Eq ActorRef
actor_eq = record { beq = actor_beq; beq_iff = actor_beq_iff }
