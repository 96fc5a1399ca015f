-- ===== src/V5/Property/RoundTrip.antt =====
-- A property is read back as it was written.
use mymq.Base.{
  ℕ, ◌<◌, ◌≤◌, ◌≡◌, refl, List, [], ◌∷◌, ◌++◌, length, arith, append_assoc, length-append,
}
use mymq.Error.{Result, ok}
use mymq.Types.Blob.{Blob, large, as_ref, Decoder, advance-append, dec_field-first}
use mymq.Types.U8
use mymq.Types.VarU32
use mymq.Types.Text.RoundTrip.{IsMqttText}
use mymq.Types.Topic.{validate_name}
use mymq.Types.Written.{
  Written, small-Written, u8-Written, u16-Written, u32-Written, var-Written, string-Written,
  name-Written, bytes-Written, user-Written,
}
use mymq.V5.Qos
use mymq.V5.Qos.{Qos}
use mymq.V5.PropertyType
use mymq.V5.PropertyType.{PropertyType}
use mymq.V5.Property
use mymq.V5.Property.{
  Property, decode_qos, encode_qos, dec_prop, enc_prop, decode_value, encode_value,
}

qos-Written : (val : Qos) → Written encode_qos decode_qos val
qos-Written val =
    small-Written (Qos.to_u8 val ∷ []) (unfold encode_qos U8.encode in refl)
      (record { at = λ rest. unfold decode_qos U8.decode in rw (Qos.try_from-to_u8 val) refl })

number_small : (t : PropertyType) → PropertyType.to_u32 t ≤ VarU32.max_var_u32
unfolding PropertyType.to_u32
number_small t = ground arith

prop_number-Written :
    (t : PropertyType) → Written VarU32.encode VarU32.decode (PropertyType.to_u32 t)
prop_number-Written t = var-Written (PropertyType.to_u32 t) (number_small t)

-- A property is written as its number and its value, and is read back.
property-Written :
    {A : Type 0} {enc : A → Result Blob} {dec : Decoder A} {v : A} (t : PropertyType)
    (make : A → Property)
    → Written enc dec v
    → ((stream : List ℕ) → decode_value t stream ≡ dec_prop make dec stream)
    → encode_value (make v) ≡ enc_prop t enc v
    → Written Property.encode Property.decode (make v)
property-Written {enc = enc} {dec} {v} t make w d e =
    let n = prop_number-Written t in
    let a = as_ref n.blob in
    let b = as_ref w.blob in
    record {
      blob = large (a ++ b);
      writes = unfold Property.encode enc_prop in rw (e, n.writes, w.writes) refl;
      reads = record {
        at = λ rest.
            unfold as_ref Property.decode dec_prop in
            rw
              (
                append_assoc a b rest,
                dec_field-first n.reads (b ++ rest),
                advance-append a (b ++ rest),
                PropertyType.try_from-to_u32 t,
                d (b ++ rest),
                w.reads.at rest,
                length-append a b,
              )
              refl;
      };
    }

-- What a value must be for `encode` to write it: the range of its machine type, and for text what
-- MQTT can carry.
unfoldable pub IsProperty : Property → Type 0
IsProperty (Property.payload_format_indicator val) = val < 256
IsProperty (Property.message_expiry_interval val) = val < 4294967296
IsProperty (Property.content_type val) = IsMqttText val
IsProperty (Property.response_topic val) = IsMqttText val × (validate_name val ≡ ok tt)
IsProperty (Property.correlation_data val) = length val ≤ 65535
IsProperty (Property.subscription_identifier val) = val ≤ VarU32.max_var_u32
IsProperty (Property.session_expiry_interval val) = val < 4294967296
IsProperty (Property.assigned_client_identifier val) = IsMqttText val
IsProperty (Property.server_keep_alive val) = val < 65536
IsProperty (Property.authentication_method val) = IsMqttText val
IsProperty (Property.authentication_data val) = length val ≤ 65535
IsProperty (Property.request_problem_information val) = val < 256
IsProperty (Property.will_delay_interval val) = val < 4294967296
IsProperty (Property.request_response_information val) = val < 256
IsProperty (Property.response_information val) = IsMqttText val
IsProperty (Property.server_reference val) = IsMqttText val
IsProperty (Property.reason_string val) = IsMqttText val
IsProperty (Property.receive_maximum val) = val < 65536
IsProperty (Property.topic_alias_maximum val) = val < 65536
IsProperty (Property.topic_alias val) = val < 65536
IsProperty (Property.maximum_qos val) = Unit
IsProperty (Property.retain_available val) = val < 256
IsProperty (Property.user_prop val) = IsMqttText val.0 × IsMqttText val.1
IsProperty (Property.maximum_packet_size val) = val < 4294967296
IsProperty (Property.wildcard_subscription_available val) = val < 256
IsProperty (Property.subscription_identifier_available val) = val < 256
IsProperty (Property.shared_subscription_available val) = val < 256

-- A property with such a value is written, and is read back off any stream that begins with what
-- was written, which is all that is taken of the stream.
pub encode_property-Written :
    (p : Property) → IsProperty p → Written Property.encode Property.decode p
unfolding IsProperty decode_value encode_value
encode_property-Written (Property.payload_format_indicator val) h =
    property-Written PropertyType.payload_format_indicator Property.payload_format_indicator
      (u8-Written val) (λ stream. refl) refl
encode_property-Written (Property.message_expiry_interval val) h =
    property-Written PropertyType.message_expiry_interval Property.message_expiry_interval
      (u32-Written val) (λ stream. refl) refl
encode_property-Written (Property.content_type val) h =
    property-Written PropertyType.content_type Property.content_type (string-Written val h)
      (λ stream. refl) refl
encode_property-Written (Property.response_topic val) h =
    property-Written PropertyType.response_topic Property.response_topic (name-Written val h.0 h.1)
      (λ stream. refl) refl
encode_property-Written (Property.correlation_data val) h =
    property-Written PropertyType.correlation_data Property.correlation_data (bytes-Written val h)
      (λ stream. refl) refl
encode_property-Written (Property.subscription_identifier val) h =
    property-Written PropertyType.subscription_identifier Property.subscription_identifier
      (var-Written val h) (λ stream. refl) refl
encode_property-Written (Property.session_expiry_interval val) h =
    property-Written PropertyType.session_expiry_interval Property.session_expiry_interval
      (u32-Written val) (λ stream. refl) refl
encode_property-Written (Property.assigned_client_identifier val) h =
    property-Written PropertyType.assigned_client_identifier Property.assigned_client_identifier
      (string-Written val h) (λ stream. refl) refl
encode_property-Written (Property.server_keep_alive val) h =
    property-Written PropertyType.server_keep_alive Property.server_keep_alive (u16-Written val)
      (λ stream. refl) refl
encode_property-Written (Property.authentication_method val) h =
    property-Written PropertyType.authentication_method Property.authentication_method
      (string-Written val h) (λ stream. refl) refl
encode_property-Written (Property.authentication_data val) h =
    property-Written PropertyType.authentication_data Property.authentication_data
      (bytes-Written val h) (λ stream. refl) refl
encode_property-Written (Property.request_problem_information val) h =
    property-Written PropertyType.request_problem_information Property.request_problem_information
      (u8-Written val) (λ stream. refl) refl
encode_property-Written (Property.will_delay_interval val) h =
    property-Written PropertyType.will_delay_interval Property.will_delay_interval (u32-Written val)
      (λ stream. refl) refl
encode_property-Written (Property.request_response_information val) h =
    property-Written PropertyType.request_response_information Property.request_response_information
      (u8-Written val) (λ stream. refl) refl
encode_property-Written (Property.response_information val) h =
    property-Written PropertyType.response_information Property.response_information
      (string-Written val h) (λ stream. refl) refl
encode_property-Written (Property.server_reference val) h =
    property-Written PropertyType.server_reference Property.server_reference (string-Written val h)
      (λ stream. refl) refl
encode_property-Written (Property.reason_string val) h =
    property-Written PropertyType.reason_string Property.reason_string (string-Written val h)
      (λ stream. refl) refl
encode_property-Written (Property.receive_maximum val) h =
    property-Written PropertyType.receive_maximum Property.receive_maximum (u16-Written val)
      (λ stream. refl) refl
encode_property-Written (Property.topic_alias_maximum val) h =
    property-Written PropertyType.topic_alias_maximum Property.topic_alias_maximum (u16-Written val)
      (λ stream. refl) refl
encode_property-Written (Property.topic_alias val) h =
    property-Written PropertyType.topic_alias Property.topic_alias (u16-Written val)
      (λ stream. refl) refl
encode_property-Written (Property.maximum_qos val) h =
    property-Written PropertyType.maximum_qos Property.maximum_qos (qos-Written val)
      (λ stream. refl) refl
encode_property-Written (Property.retain_available val) h =
    property-Written PropertyType.retain_available Property.retain_available (u8-Written val)
      (λ stream. refl) refl
encode_property-Written (Property.user_prop val) h =
    property-Written PropertyType.user_prop Property.user_prop (user-Written val h.0 h.1)
      (λ stream. refl) refl
encode_property-Written (Property.maximum_packet_size val) h =
    property-Written PropertyType.maximum_packet_size Property.maximum_packet_size (u32-Written val)
      (λ stream. refl) refl
encode_property-Written (Property.wildcard_subscription_available val) h =
    property-Written PropertyType.wildcard_subscription_available
      Property.wildcard_subscription_available (u8-Written val) (λ stream. refl) refl
encode_property-Written (Property.subscription_identifier_available val) h =
    property-Written PropertyType.subscription_identifier_available
      Property.subscription_identifier_available (u8-Written val) (λ stream. refl) refl
encode_property-Written (Property.shared_subscription_available val) h =
    property-Written PropertyType.shared_subscription_available
      Property.shared_subscription_available (u8-Written val) (λ stream. refl) refl
