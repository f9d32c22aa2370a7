-- ===== src/Process/Helper.antt =====
-- `main` of cmd/suspend-helper/main.go. Files, the environment, gRPC and the service are parameters.
use substrate_ws_poc.Prelude.{
  [], ◌++◌, Option, none, some, ◌≡◌, ◌↔◌, refl, arith, if◌then◌else◌, ◌==◌, Option-cases, inl, inr,
  ◌⊎◌,
}
use substrate_ws_poc.Prelude.Bytes.{Bytes, codes, bytes_eq}
use substrate_ws_poc.Actor.{ActorRef}
use substrate_ws_poc.Server.Tokens.{trim_space}

-- The result of `os.ReadFile`.
pub data File : Type 0 where
  unread : Bytes → File
  contents : Bytes → File

-- An error is `none` if it is nil, and else its text. `suspend_actor` has the address and the actor.
pub record Machine : Type 0 where
  pub read_file : Bytes → File
  pub getenv : Bytes → Bytes
  pub new_client : Bytes → Option Bytes
  pub suspend_actor : Bytes → ActorRef → Option Bytes

-- How the process ends: by `log.Fatalf`, or with status 0 after the actor's suspend was accepted.
pub data Exit : Type 0 where
  fatal : Bytes → Exit
  suspended : ActorRef → Exit

abbrev pub actor_id_path : Bytes
actor_id_path = codes "/run/ate/actor-id"

abbrev atespace_path : Bytes
atespace_path = codes "/run/ate/atespace"

unfoldable pub api_addr : Machine → Bytes
api_addr w =
    let addr = w.getenv (codes "ATE_API_ADDR") in
    if addr == [] then codes "api.ate-system.svc.cluster.local:443" else addr

asks : Option Bytes → ActorRef → Exit
asks none ref = suspended ref
asks (some e) ref = fatal (codes "suspend-helper: SuspendActor failed: " ++ e)

calls : Machine → Bytes → ActorRef → Option Bytes → Exit
unfolding asks
calls w addr ref none = asks (w.suspend_actor addr ref) ref
calls w addr ref (some e) = fatal (codes "suspend-helper: dialing " ++ addr ++ codes ": " ++ e)

with_atespace : Machine → Bytes → File → Exit
unfolding calls api_addr
with_atespace w id (unread e) = fatal (codes "suspend-helper: reading atespace: " ++ e)
with_atespace w id (contents atespace) =
    let ref : ActorRef = record { atespace = trim_space atespace; name = trim_space id } in
    calls w (api_addr w) ref (w.new_client (api_addr w))

with_id : Machine → File → Exit
unfolding with_atespace
with_id w (unread e) = fatal (codes "suspend-helper: reading actor id: " ++ e)
with_id w (contents id) = with_atespace w id (w.read_file atespace_path)

unfoldable pub main : Machine → Exit
unfolding with_id
main w = with_id w (w.read_file actor_id_path)

-- Both files are read, and the service accepts the suspend of the actor that they name.
pub record IsAsked (w : Machine) (ref : ActorRef) : Type 0 where
  pub id : Bytes
  pub atespace : Bytes
  pub id_read : w.read_file actor_id_path ≡ contents id
  pub atespace_read : w.read_file atespace_path ≡ contents atespace
  pub named : ref ≡ record { atespace = trim_space atespace; name = trim_space id }
  pub dialed : w.new_client (api_addr w) ≡ none
  pub taken : w.suspend_actor (api_addr w) ref ≡ none

pub File-cases : (f : File) → ((e : Bytes) × (f ≡ unread e)) ⊎ ((b : Bytes) × (f ≡ contents b))
File-cases (unread e) = inl (e, refl)
File-cases (contents b) = inr (b, refl)

main-IsAsked : (w : Machine) (ref : ActorRef) → main w ≡ suspended ref → IsAsked w ref
unfolding main with_id with_atespace calls asks
main-IsAsked w ref h = elim (File-cases (w.read_file actor_id_path)) [
  | inl (e, no_id) ↦ absurd (ground arith)
  | inr (id, id_read) ↦ elim (File-cases (w.read_file atespace_path)) [
    | inl (e, no_atespace) ↦ absurd (ground arith)
    | inr (atespace, atespace_read) ↦ elim (Option-cases (w.new_client (api_addr w))) [
      | inr (e, no_client) ↦ absurd (ground arith)
      | inl dialed ↦
          let named : ActorRef = record { atespace = trim_space atespace; name = trim_space id } in
          elim (Option-cases (w.suspend_actor (api_addr w) named)) [
            | inr (e, no_suspend) ↦ absurd (ground arith)
            | inl taken ↦
                let same : ref ≡ named = ground arith in
                record {
                  id = id;
                  atespace = atespace;
                  id_read = id_read;
                  atespace_read = atespace_read;
                  named = same;
                  dialed = dialed;
                  taken = rw same taken;
                }
          ]
    ]
  ]
]

IsAsked-main : (w : Machine) (ref : ActorRef) → IsAsked w ref → main w ≡ suspended ref
unfolding main with_id with_atespace calls asks
IsAsked-main w ref a = ground (arith, a.id_read, a.atespace_read, a.named, a.dialed, a.taken)

-- The helper ends with status 0 after the suspend of an actor exactly if it reads both files of the
-- identity, which name that actor between white space, reaches the service's address and is accepted.
pub main_iff : (w : Machine) (ref : ActorRef) → (main w ≡ suspended ref) ↔ IsAsked w ref
main_iff w ref = (main-IsAsked w ref, IsAsked-main w ref)
