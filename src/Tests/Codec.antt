-- ===== src/Tests/Codec.antt =====
-- A small instance of encoding/json that meets the laws which the broker relies on: an object has
-- the one member `envelope_id`, and its text is 1 and the member's.
use mathlib.Core.Option
use substrate_ws_poc.Prelude.{
  List, [], ◌∷◌, Option, none, some, ◌≡◌, refl, arith, if◌then◌else◌, ◌==◌, nat_eq, sym,
}
use substrate_ws_poc.Prelude.Bytes.{Bytes, bytes_beq, bytes_eq}
use substrate_ws_poc.Prelude.Dict.{insert}
use substrate_ws_poc.SocketMode.{
  Json, JsonLaws, Fields, malformed, null, object, Envelope, zero_envelope, type_events_api,
  envelope_id_key,
}

abbrev pub event_envelope : Bytes → Envelope
event_envelope id = record zero_envelope { type = type_events_api; envelope_id = id }

fields_of : Bytes → Fields
fields_of [] = null
fields_of (a ∷ rest) = if a == 1 then object ((envelope_id_key, rest) ∷ []) else malformed

envelope_of : Bytes → Option Envelope
envelope_of [] = some zero_envelope
envelope_of (a ∷ rest) = if a == 1 then some (event_envelope rest) else none

text_of : List (Bytes × Bytes) → Option Bytes
text_of ((k, v) ∷ []) = if k == envelope_id_key then some (1 ∷ v) else none
text_of _ = none

instance unfoldable pub toy : Json
unfolding fields_of envelope_of text_of
toy = record {
  unmarshal_envelope = envelope_of;
  unmarshal_callback = λ b. none;
  unmarshal_fields = fields_of;
  marshal_string = λ s. some s;
  marshal_fields = text_of;
  marshal_envelope = λ e. some (1 ∷ e.envelope_id);
  rewritten = λ b. b;
}

toy_null : (b : Bytes) → fields_of b ≡ null → envelope_of b ≡ some zero_envelope
unfolding fields_of envelope_of
toy_null [] h = refl
toy_null (a ∷ rest) h = ground arith

toy_malformed : (b : Bytes) → fields_of b ≡ malformed → envelope_of b ≡ none
unfolding fields_of envelope_of
toy_malformed [] h = cc
toy_malformed (a ∷ rest) h = ground arith

-- The one member of a decoded object.
toy_member :
    (b : Bytes) (m : List (Bytes × Bytes))
    → fields_of b ≡ object m
    → (rest : Bytes) × (m ≡ (envelope_id_key, rest) ∷ [])
unfolding fields_of
toy_member [] m h = cc
toy_member (a ∷ rest) m h = (rest, ground arith)

toy_insert :
    (j rest : Bytes)
    → insert envelope_id_key j ((envelope_id_key, rest) ∷ []) ≡ (envelope_id_key, j) ∷ []
unfolding insert bytes_beq
toy_insert j rest = refl

toy_text : (j : Bytes) → text_of ((envelope_id_key, j) ∷ []) ≡ some (1 ∷ j)
unfolding text_of bytes_beq
toy_text j = refl

toy_total :
    (b s j : Bytes) (m : List (Bytes × Bytes))
    → fields_of b ≡ object m
    → (out : Bytes) × (text_of (insert envelope_id_key j m) ≡ some out)
toy_total b s j m h =
    let (rest, one) = toy_member b m h in (1 ∷ j, rw (one, toy_insert j rest) (toy_text j))

toy_back :
    (b s j out : Bytes) (m : List (Bytes × Bytes))
    → fields_of b ≡ object m
    → text_of (insert envelope_id_key j m) ≡ some out
    → fields_of out ≡ object (insert envelope_id_key j m)
unfolding fields_of
toy_back b s j out m h e =
    let (rest, one) = toy_member b m h in
    let same : 1 ∷ j ≡ out = ground (arith, toy_text j, toy_insert j rest) in
    rw (← same, one, toy_insert j rest) refl

map_self : (o : Option Bytes) → Option.map (λ b. b) o ≡ o
map_self none = refl
map_self (some b) = refl

pub toy_laws : JsonLaws toy
unfolding toy
toy_laws = record {
  unmarshal_null = toy_null;
  unmarshal_malformed = toy_malformed;
  marshal_string_total = λ s. (s, refl);
  marshal_fields_total = λ b s j m h _. toy_total b s j m h;
  unmarshal-marshal = λ b s j out m h _ e. (_, toy_back b s j out m h e, λ k. sym (map_self _));
}
