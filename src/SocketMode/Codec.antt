-- ===== src/SocketMode/Codec.antt =====
-- Decoding in internal/socketmode/protocol.go, and `rewriteEnvelopeID` of
-- cmd/egress-broker/registry.go. encoding/json is the parameter `Json`.
use mathlib.Core.Option
use substrate_ws_poc.Prelude.{not, List, Option, none, some, ◌≡◌, ◌==◌, if◌then◌else◌}
use substrate_ws_poc.Prelude.Bytes.{Bytes, codes, bytes_eq}
use substrate_ws_poc.Prelude.Dict.{lookup, insert}
use substrate_ws_poc.SocketMode.Frames.{Envelope, EventCallback, zero_envelope, type_events_api}

-- What `json.Unmarshal` makes of a text as a `map[string]json.RawMessage`: an error, the nil map
-- (for the text `null`, without an error), or the members.
pub data Fields : Type 0 where
  malformed : Fields
  null : Fields
  object : List (Bytes × Bytes) → Fields

-- The calls of encoding/json; `none` is an error.
pub record Json : Type 0 where
  pub unmarshal_envelope : Bytes → Option Envelope
  pub unmarshal_callback : Bytes → Option EventCallback
  pub unmarshal_fields : Bytes → Fields
  pub marshal_string : Bytes → Option Bytes
  pub marshal_fields : List (Bytes × Bytes) → Option Bytes
  pub marshal_envelope : Envelope → Option Bytes
  -- What `Marshal` writes for a `json.RawMessage`: the same value, re-spaced and escaped.
  pub rewritten : Bytes → Bytes

pub data Error : Type 0 where
  decoding_envelope : Error
  wrong_type : Bytes → Error
  decoding_callback : Error

pub data Result {ℓ} (A : Type ℓ) : Type ℓ where
  ok : A → Result A
  err : Error → Result A

abbrev pub envelope_id_key : Bytes
envelope_id_key = codes "envelope_id"

module _ ⦃json : Json⦄ where
  unfoldable pub decode_envelope : Bytes → Result Envelope
  decode_envelope b = elim (json.unmarshal_envelope b) [
    | none ↦ err decoding_envelope
    | some e ↦ ok e
  ]

  unfoldable pub parse_event_callback : Envelope → Result EventCallback
  parse_event_callback e =
      if not (e.type == type_events_api)
      then err (wrong_type e.type)
      else elim (json.unmarshal_callback e.payload) [
        | none ↦ err decoding_callback
        | some cb ↦ ok cb
      ]

  or_raw : Bytes → Option Bytes → Bytes
  or_raw raw none = raw
  or_raw raw (some out) = out

  -- `m["envelope_id"] = idJSON` and what follows it. `none` is the panic of an assignment to a
  -- nil map.
  assign_envelope_id : Bytes → Bytes → Fields → Option Bytes
  assign_envelope_id raw id_json malformed = some raw
  assign_envelope_id raw id_json null = none
  assign_envelope_id raw id_json (object m) =
      some (or_raw raw (json.marshal_fields (insert envelope_id_key id_json m)))

  rewrite_fields : Bytes → Bytes → Fields → Option Bytes
  rewrite_fields raw fresh malformed = some raw
  rewrite_fields raw fresh m = elim (json.marshal_string fresh) [
    | none ↦ some raw
    | some id_json ↦ assign_envelope_id raw id_json m
  ]

  -- `none` is a panic.
  unfoldable pub rewrite_envelope_id : Bytes → Bytes → Option Bytes
  unfolding rewrite_fields assign_envelope_id or_raw
  rewrite_envelope_id raw fresh = rewrite_fields raw fresh (json.unmarshal_fields raw)

-- The documented behaviour of encoding/json that the broker relies on.
pub record JsonLaws (json : Json) : Type 0 where
  -- `null` decodes into a struct without effect and without an error.
  pub unmarshal_null :
      (b : Bytes) → json.unmarshal_fields b ≡ null → json.unmarshal_envelope b ≡ some zero_envelope
  -- A text that is neither `null` nor an object is refused as a struct.
  pub unmarshal_malformed :
      (b : Bytes) → json.unmarshal_fields b ≡ malformed → json.unmarshal_envelope b ≡ none
  -- A string always encodes.
  pub marshal_string_total : (s : Bytes) → (j : Bytes) × (json.marshal_string s ≡ some j)
  -- A decoded object still encodes when one member is replaced by an encoded string.
  pub marshal_fields_total :
      (b s j : Bytes) (m : List (Bytes × Bytes))
      → json.unmarshal_fields b ≡ object m
      → json.marshal_string s ≡ some j
      → (out : Bytes) × (json.marshal_fields (insert envelope_id_key j m) ≡ some out)
  -- Decoding that object gives its members back, their texts as `Marshal` writes them.
  pub unmarshal-marshal :
      (b s j out : Bytes) (m : List (Bytes × Bytes))
      → json.unmarshal_fields b ≡ object m
      → json.marshal_string s ≡ some j
      → json.marshal_fields (insert envelope_id_key j m) ≡ some out
      → (m' : List (Bytes × Bytes)) × (json.unmarshal_fields out ≡ object m')
        × ((k : Bytes)
            → lookup k m' ≡ Option.map json.rewritten (lookup k (insert envelope_id_key j m)))
