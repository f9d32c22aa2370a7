-- ===== src/Actor.antt =====
-- Identities of actors: cmd/egress-broker/ateapi.go and the X-Ate-Actor header of server.go.
pub mod Ref
pub mod Parse
pub use Ref.{ActorRef}
unfoldable pub use Ref.{to_string, actor_eq}
unfoldable pub use Parse.{parse_actor_ref}
