-- ===== src/SocketMode/Rewrite.antt =====
-- What `rewriteEnvelopeID` of cmd/egress-broker/registry.go does to a frame.
use mathlib.Core.Option
use substrate_ws_poc.Prelude.{
  true, false, List, none, some, ◌≡◌, refl, ◌≢◌, ◌⊎◌, arith, eq_iff, inl, inr,
}
use substrate_ws_poc.Prelude.Bytes.{Bytes, bytes_beq, bytes_eq}
use substrate_ws_poc.Prelude.Dict.{lookup, lookup-insert, lookup-insert_self}
use substrate_ws_poc.SocketMode.Frames.{Envelope, zero_envelope, is_event}
use substrate_ws_poc.SocketMode.Codec.{
  Json, Fields, malformed, null, object, ok, JsonLaws, envelope_id_key, decode_envelope,
  rewrite_envelope_id,
}

is_event-zero : is_event zero_envelope ≡ false
unfolding is_event bytes_beq
is_event-zero = refl

module _ ⦃json : Json⦄ where
  -- A frame that decodes to an event is a JSON object.
  abbrev pub IsEventFrame : Bytes → Type 0
  IsEventFrame raw = (e : Envelope) × (decode_envelope raw ≡ ok e) × (is_event e ≡ true)

  Fields-cases :
      (f : Fields) → (f ≡ malformed) ⊎ ((f ≡ null) ⊎ ((m : List (Bytes × Bytes)) × (f ≡ object m)))
  Fields-cases malformed = inl refl
  Fields-cases null = inr (inl refl)
  Fields-cases (object m) = inr (inr (m, refl))

  pub event_is_object :
      (laws : JsonLaws json) (raw : Bytes)
      → IsEventFrame raw
      → (m : List (Bytes × Bytes)) × (json.unmarshal_fields raw ≡ object m)
  unfolding decode_envelope
  event_is_object laws raw (e, decoded, event) = elim (Fields-cases (json.unmarshal_fields raw)) [
    | inl bad ↦ absurd (ground (arith, laws.unmarshal_malformed raw bad))
    | inr (inl nil) ↦ absurd (ground (arith, laws.unmarshal_null raw nil, is_event-zero))
    | inr (inr (m, here)) ↦ (m, here)
  ]

  -- The frame `out` is `raw` with a new id.
  pub record IsRewritten (raw fresh out : Bytes) : Type 0 where
    pub members : List (Bytes × Bytes)
    pub members' : List (Bytes × Bytes)
    pub id_json : Bytes
    pub encoded : json.marshal_string fresh ≡ some id_json
    pub before : json.unmarshal_fields raw ≡ object members
    pub after : json.unmarshal_fields out ≡ object members'
    pub id : lookup envelope_id_key members' ≡ some (json.rewritten id_json)
    pub others :
        (k : Bytes)
        → k ≢ envelope_id_key
        → lookup k members' ≡ Option.map json.rewritten (lookup k members)

  -- If encoding/json behaves as documented, an event frame is rewritten to a frame whose envelope_id
  -- is the new id and whose other members are those of the original, each as encoded again.
  pub rewrite_envelope_id-IsRewritten :
      (laws : JsonLaws json) (raw fresh : Bytes)
      → IsEventFrame raw
      → (out : Bytes) × (rewrite_envelope_id raw fresh ≡ some out) × IsRewritten raw fresh out
  unfolding rewrite_envelope_id
  rewrite_envelope_id-IsRewritten laws raw fresh event =
      let (m, here) = event_is_object laws raw event in
      let (j, text) = laws.marshal_string_total fresh in
      let (out, written) = laws.marshal_fields_total raw fresh j m here text in
      let (m', back, same) = laws.unmarshal-marshal raw fresh j out m here text written in
      (
        out,
        ground arith,
        record {
          members = m;
          members' = m';
          id_json = j;
          encoded = text;
          before = here;
          after = back;
          id = rw (same envelope_id_key, lookup-insert_self envelope_id_key j m) refl;
          others = λ k n.
              ground (arith, same k, lookup-insert envelope_id_key k j m, eq_iff envelope_id_key k);
        },
      )

  -- If encoding/json behaves as documented, rewriting a text that decodes to the nil map panics.
  rewrite_envelope_id-null :
      (laws : JsonLaws json) (raw fresh : Bytes)
      → json.unmarshal_fields raw ≡ null
      → rewrite_envelope_id raw fresh ≡ none
  unfolding rewrite_envelope_id
  rewrite_envelope_id-null laws raw fresh h = ground (arith, laws.marshal_string_total fresh)
