-- ===== src/SocketMode/Frames.antt =====
-- internal/socketmode/protocol.go: the frame types and their classification.
use substrate_ws_poc.Prelude.{Bool, true, false, ◌||◌, ◌&&◌, not, [], ◌==◌, if◌then◌else◌}
use substrate_ws_poc.Prelude.Bytes.{Bytes, codes, bytes_eq}
use substrate_ws_poc.Prelude.Int.{ℤ, pos}

abbrev pub type_hello : Bytes
type_hello = codes "hello"

abbrev pub type_disconnect : Bytes
type_disconnect = codes "disconnect"

abbrev pub type_events_api : Bytes
type_events_api = codes "events_api"

abbrev pub type_slash_commands : Bytes
type_slash_commands = codes "slash_commands"

abbrev pub type_interactive : Bytes
type_interactive = codes "interactive"

-- A field that the JSON leaves out is the zero value.
pub record Envelope : Type 0 where
  pub type : Bytes
  pub envelope_id : Bytes
  pub accepts_response_payload : Bool
  pub payload : Bytes  -- json.RawMessage
  pub num_connections : ℤ
  pub reason : Bytes

-- `Envelope{}`.
abbrev pub zero_envelope : Envelope
zero_envelope = record {
  type = [];
  envelope_id = [];
  accepts_response_payload = false;
  payload = [];
  num_connections = pos 0;
  reason = [];
}

pub record Ack : Type 0 where
  pub envelope_id : Bytes
  pub payload : Bytes

pub record MessageEvent : Type 0 where
  pub type : Bytes
  pub subtype : Bytes
  pub channel : Bytes
  pub channel_type : Bytes
  pub user : Bytes
  pub bot_id : Bytes
  pub text : Bytes
  pub ts : Bytes
  pub thread_ts : Bytes

pub record EventCallback : Type 0 where
  pub type : Bytes
  pub team_id : Bytes
  pub api_app_id : Bytes
  pub event : MessageEvent
  pub event_id : Bytes
  pub event_time : ℤ

unfoldable pub is_connection_management : Envelope → Bool
is_connection_management e = e.type == type_hello || e.type == type_disconnect

unfoldable pub is_event : Envelope → Bool
is_event e =
    if e.type == type_events_api || e.type == type_slash_commands || e.type == type_interactive
    then true
    else false

unfoldable pub is_human_message : MessageEvent → Bool
is_human_message m =
    if not (m.type == codes "message") && not (m.type == codes "app_mention")
    then false
    else (if not (m.subtype == [])
        then false
        else if not (m.bot_id == []) || m.user == []
        then false
        else true)
