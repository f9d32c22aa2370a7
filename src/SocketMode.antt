-- ===== src/SocketMode.antt =====
-- internal/socketmode/protocol.go: the Socket Mode frames, their classification, and what the
-- broker decodes of them. Integers that the code only carries are `ℤ`.
pub mod Codec
pub mod Frames
pub mod Classes
pub mod Rewrite
pub use Frames.{
  Envelope, Ack, MessageEvent, EventCallback, zero_envelope, type_hello, type_disconnect,
  type_events_api, type_slash_commands, type_interactive,
}
unfoldable pub use Frames.{is_connection_management, is_event, is_human_message}
pub use Codec.{
  Json, Fields, malformed, null, object, Error, decoding_envelope, wrong_type, decoding_callback,
  Result, ok, err, JsonLaws, envelope_id_key,
}
unfoldable pub use Codec.{decode_envelope, parse_event_callback, rewrite_envelope_id}
