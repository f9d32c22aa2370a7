-- ===== src/Tests/Frames.antt =====
-- Frames: classification and rewriting.
use substrate_ws_poc.Prelude.{[], ◌∷◌, none, some, ◌≡◌, refl, true, false}
use substrate_ws_poc.Prelude.Bytes.{Bytes, codes, bytes_beq, bytes_eq}
use substrate_ws_poc.SocketMode.{
  MessageEvent, zero_envelope, type_hello, is_event, is_connection_management, is_human_message,
  decode_envelope, rewrite_envelope_id, parse_event_callback, wrong_type, err,
}
use substrate_ws_poc.SocketMode.Rewrite.{IsEventFrame, IsRewritten, rewrite_envelope_id-IsRewritten}
use substrate_ws_poc.Tests.Codec.{toy, toy_laws, event_envelope}

abbrev pub first_event : Bytes
first_event = 1 ∷ 5 ∷ []

abbrev pub second_event : Bytes
second_event = 1 ∷ 6 ∷ 7 ∷ []

pub first_event-IsEventFrame : IsEventFrame first_event
unfolding toy decode_envelope is_event bytes_beq
first_event-IsEventFrame = (event_envelope (5 ∷ []), refl, refl)

pub second_event-IsEventFrame : IsEventFrame second_event
unfolding toy decode_envelope is_event bytes_beq
second_event-IsEventFrame = (event_envelope (6 ∷ 7 ∷ []), refl, refl)

hello_is_management : is_connection_management (record zero_envelope { type = type_hello }) ≡ true
unfolding is_connection_management bytes_beq
hello_is_management = refl

hello_has_no_callback :
    parse_event_callback (record zero_envelope { type = type_hello }) ≡ err (wrong_type type_hello)
unfolding parse_event_callback bytes_beq
hello_has_no_callback = refl

events_api_is_event : is_event (event_envelope []) ≡ true
unfolding is_event bytes_beq
events_api_is_event = refl

abbrev plain : MessageEvent
plain = record {
  type = codes "message";
  subtype = [];
  channel = codes "C1";
  channel_type = [];
  user = codes "U1";
  bot_id = [];
  text = codes "hi";
  ts = codes "1";
  thread_ts = [];
}

bots_are_not_human :
    (is_human_message (record plain { bot_id = codes "B1" }) ≡ false)
    × (is_human_message (record plain { subtype = codes "message_changed" }) ≡ false)
    × (is_human_message (record plain { user = [] }) ≡ false)
unfolding is_human_message bytes_beq
bots_are_not_human = (refl, refl, refl)

rewrite_envelope_id-IsRewritten_example :
    (out : Bytes) × (rewrite_envelope_id first_event (9 ∷ []) ≡ some out)
    × IsRewritten first_event (9 ∷ []) out
rewrite_envelope_id-IsRewritten_example =
    rewrite_envelope_id-IsRewritten toy_laws first_event (9 ∷ []) first_event-IsEventFrame

-- The text [] is null.
null_panics : rewrite_envelope_id [] (9 ∷ []) ≡ none
unfolding rewrite_envelope_id toy
null_panics = refl
