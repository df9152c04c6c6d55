-- ===== src/Machine/Codec.antt =====
-- machine.ts, `encodeState`, `decodeState`, `encodeCommand` and `decodeCommand`. The encoding of a
-- value by its schema is the `effect` library's, so a codec is a parameter: `J` is the stored form.
use cf_open_agents_api.Prelude.{
  String, ◌≡◌, Bool, true, Option, some, ok, ◌>>=◌, or_throw, lookup, string_eq, refl,
}
use cf_open_agents_api.Machine.Types.{
  StateSpec, Spec, State, Command, corrupt_state, corrupt_command,
}
use cf_open_agents_api.Machine.Defs.{Checked}
use cf_open_agents_api.Machine.Stepping.{IsKnown}

-- `Encoded`: a tag and the stored form of the rest.
pub record Encoded (J : Type 0) : Type 0 where
  pub tag : String
  pub fields : J

-- `Schema.encodeSync` and `Schema.decodeUnknownEither`, by the tag whose schema is used.
pub record Codec (D C J : Type 0) : Type 0 where
  pub encode_data : String → D → J
  pub decode_data : String → J → Option D
  pub encode_payload : String → C → J
  pub decode_payload : String → J → Option C

module _ {D C J : Type 0} (codec : Codec D C J) (definition : Spec D C) where
  -- `encodeState(current)`
  unfoldable pub encode_state : State D → Encoded J
  encode_state current = record {
    tag = current.tag;
    fields = codec.encode_data current.tag current.content;
  }

  -- `decodeState(value)`
  unfoldable pub decode_state : Encoded J → Checked (State D)
  decode_state value = do
    spec ← or_throw (lookup value.tag definition.states) (corrupt_state value.tag)
    content ← or_throw (codec.decode_data value.tag value.fields) (corrupt_state value.tag)
    ok (record { tag = value.tag; content = content })

  -- `encodeCommand(command)`
  unfoldable pub encode_command : Command C → Encoded J
  encode_command command = record {
    tag = command.tag;
    fields = codec.encode_payload command.tag command.payload;
  }

  -- `decodeCommand(value)`
  unfoldable pub decode_command : Encoded J → Checked (Command C)
  decode_command value = do
    schema ← or_throw (lookup value.tag definition.commands) (corrupt_command value.tag)
    payload ← or_throw (codec.decode_payload value.tag value.fields) (corrupt_command value.tag)
    ok (record { tag = value.tag; payload = payload })

  -- What the schemas promise: data that a schema accepts decodes from its encoded form.
  pub record RoundTrips : Type 0 where
    pub states_decode :
        (tag : String) (spec : StateSpec D) (content : D)
        → lookup tag definition.states ≡ some spec
        → spec.validates content ≡ true
        → codec.decode_data tag (codec.encode_data tag content) ≡ some content
    pub commands_decode :
        (tag : String) (schema : C → Bool) (payload : C)
        → lookup tag definition.commands ≡ some schema
        → schema payload ≡ true
        → codec.decode_payload tag (codec.encode_payload tag payload) ≡ some payload

  -- A known state with valid data survives its encoding.
  pub decode-encode_state :
      (s : State D) → RoundTrips → IsKnown definition s → decode_state (encode_state s) ≡ ok s
  unfolding decode_state encode_state
  decode-encode_state s law known =
      rw known.found
        (rw (law.states_decode s.tag known.spec s.content known.found known.valid) refl)
