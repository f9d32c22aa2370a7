-- ===== src/SocketMode/Classes.antt =====
-- How internal/socketmode/protocol.go sorts frames, and what rewriting an id keeps.

use substrate_ws_poc.Prelude.{true, false, [], ◌≡◌, ◌≢◌, ◌↔◌, ◌⊎◌, arith, eq_iff}
use substrate_ws_poc.Prelude.Bytes.{Bytes, codes, bytes_eq}
use substrate_ws_poc.SocketMode.Frames.{
  Envelope, MessageEvent, type_hello, type_disconnect, type_events_api, type_slash_commands,
  type_interactive, is_connection_management, is_event, is_human_message,
}

abbrev pub IsEventType : Bytes → Type 0
IsEventType t = (t ≡ type_events_api) ⊎ ((t ≡ type_slash_commands) ⊎ (t ≡ type_interactive))

pub is_event_iff : (e : Envelope) → (is_event e ≡ true) ↔ IsEventType e.type
unfolding is_event
is_event_iff e = ground (
  arith,
  eq_iff e.type type_events_api,
  eq_iff e.type type_slash_commands,
  eq_iff e.type type_interactive,
)

pub is_connection_management_iff :
    (e : Envelope)
    → (is_connection_management e ≡ true) ↔ ((e.type ≡ type_hello) ⊎ (e.type ≡ type_disconnect))
unfolding is_connection_management
is_connection_management_iff e =
    ground (arith, eq_iff e.type type_hello, eq_iff e.type type_disconnect)

-- A frame that counts as an event does not count as connection management.
pub is_event-not_management :
    (e : Envelope) → is_event e ≡ true → is_connection_management e ≡ false
is_event-not_management e h = ground (arith, is_event_iff e, is_connection_management_iff e)

-- The message events that the echo actor answers.
pub record IsHuman (m : MessageEvent) : Type 0 where
  pub kind : (m.type ≡ codes "message") ⊎ (m.type ≡ codes "app_mention")
  pub no_subtype : m.subtype ≡ []
  pub no_bot : m.bot_id ≡ []
  pub has_user : m.user ≢ []

-- A message event counts as a person's exactly when it is a message or a mention, without a subtype
-- or a bot id, and with a user.
is_human_message_iff : (m : MessageEvent) → (is_human_message m ≡ true) ↔ IsHuman m
unfolding is_human_message
is_human_message_iff m = ground (
  arith,
  eq_iff m.type (codes "message"),
  eq_iff m.type (codes "app_mention"),
  eq_iff m.subtype [],
  eq_iff m.bot_id [],
  eq_iff m.user [],
)
