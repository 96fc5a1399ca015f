-- ===== src/V5/Property.antt =====
-- `Property` of v5/mod.rs: a property of a packet, on the wire.
pub mod RoundTrip
pub mod Safe
use mymq.Base.{ℕ, ◌+◌, List, ◌++◌}
use mymq.Error.{Result, ok, ◌>>=◌}
use mymq.Types.Blob.{Blob, large, as_ref, Decoder, advance, dec_field}
use mymq.Types.U8
use mymq.Types.U16
use mymq.Types.U32
use mymq.Types.VarU32
use mymq.Types.Utf8.{Str}
use mymq.Types.Text.{
  UserProperty, decode_string, encode_string, decode_bytes, encode_bytes, decode_user_property,
  encode_user_property,
}
use mymq.Types.Topic.{TopicName, decode_name, encode_name}
use mymq.V5.Qos
use mymq.V5.Qos.{Qos}
use mymq.V5.PropertyType
use mymq.V5.PropertyType.{PropertyType}

pub data Property : Type 0 where
  payload_format_indicator : ℕ → Property
  message_expiry_interval : ℕ → Property
  content_type : Str → Property
  response_topic : TopicName → Property
  correlation_data : List ℕ → Property
  subscription_identifier : ℕ → Property
  session_expiry_interval : ℕ → Property
  assigned_client_identifier : Str → Property
  server_keep_alive : ℕ → Property
  authentication_method : Str → Property
  authentication_data : List ℕ → Property
  request_problem_information : ℕ → Property
  will_delay_interval : ℕ → Property
  request_response_information : ℕ → Property
  response_information : Str → Property
  server_reference : Str → Property
  reason_string : Str → Property
  receive_maximum : ℕ → Property
  topic_alias_maximum : ℕ → Property
  topic_alias : ℕ → Property
  maximum_qos : Qos → Property
  retain_available : ℕ → Property
  user_prop : UserProperty → Property
  maximum_packet_size : ℕ → Property
  wildcard_subscription_available : ℕ → Property
  subscription_identifier_available : ℕ → Property
  shared_subscription_available : ℕ → Property

unfoldable pub to_property_type : Property → PropertyType
to_property_type (payload_format_indicator val) = PropertyType.payload_format_indicator
to_property_type (message_expiry_interval val) = PropertyType.message_expiry_interval
to_property_type (content_type val) = PropertyType.content_type
to_property_type (response_topic val) = PropertyType.response_topic
to_property_type (correlation_data val) = PropertyType.correlation_data
to_property_type (subscription_identifier val) = PropertyType.subscription_identifier
to_property_type (session_expiry_interval val) = PropertyType.session_expiry_interval
to_property_type (assigned_client_identifier val) = PropertyType.assigned_client_identifier
to_property_type (server_keep_alive val) = PropertyType.server_keep_alive
to_property_type (authentication_method val) = PropertyType.authentication_method
to_property_type (authentication_data val) = PropertyType.authentication_data
to_property_type (request_problem_information val) = PropertyType.request_problem_information
to_property_type (will_delay_interval val) = PropertyType.will_delay_interval
to_property_type (request_response_information val) = PropertyType.request_response_information
to_property_type (response_information val) = PropertyType.response_information
to_property_type (server_reference val) = PropertyType.server_reference
to_property_type (reason_string val) = PropertyType.reason_string
to_property_type (receive_maximum val) = PropertyType.receive_maximum
to_property_type (topic_alias_maximum val) = PropertyType.topic_alias_maximum
to_property_type (topic_alias val) = PropertyType.topic_alias
to_property_type (maximum_qos val) = PropertyType.maximum_qos
to_property_type (retain_available val) = PropertyType.retain_available
to_property_type (user_prop val) = PropertyType.user_prop
to_property_type (maximum_packet_size val) = PropertyType.maximum_packet_size
to_property_type (wildcard_subscription_available val) =
    PropertyType.wildcard_subscription_available
to_property_type (subscription_identifier_available val) =
    PropertyType.subscription_identifier_available
to_property_type (shared_subscription_available val) = PropertyType.shared_subscription_available

-- The macro `dec_prop!`
unfoldable pub dec_prop : {A : Type 0} → (A → Property) → Decoder A → Decoder Property
dec_prop make dec stream = do (val, n) ← dec stream; ok (make val, n)

-- The arm of `MaximumQoS`: a byte that is a QoS.
unfoldable pub decode_qos : Decoder Qos
unfolding U8.decode Qos.try_from
decode_qos stream = do (val, n) ← U8.decode stream; qos ← Qos.try_from val; ok (qos, n)

unfoldable pub encode_qos : Qos → Result Blob
unfolding U8.encode Qos.to_u8
encode_qos qos = U8.encode (Qos.to_u8 qos)

-- The arms of `decode`
unfoldable pub decode_value : PropertyType → Decoder Property
unfolding dec_prop decode_qos
decode_value PropertyType.payload_format_indicator stream =
    dec_prop payload_format_indicator U8.decode stream
decode_value PropertyType.message_expiry_interval stream =
    dec_prop message_expiry_interval U32.decode stream
decode_value PropertyType.content_type stream = dec_prop content_type decode_string stream
decode_value PropertyType.response_topic stream = dec_prop response_topic decode_name stream
decode_value PropertyType.correlation_data stream = dec_prop correlation_data decode_bytes stream
decode_value PropertyType.subscription_identifier stream =
    dec_prop subscription_identifier VarU32.decode stream
decode_value PropertyType.session_expiry_interval stream =
    dec_prop session_expiry_interval U32.decode stream
decode_value PropertyType.assigned_client_identifier stream =
    dec_prop assigned_client_identifier decode_string stream
decode_value PropertyType.server_keep_alive stream = dec_prop server_keep_alive U16.decode stream
decode_value PropertyType.authentication_method stream =
    dec_prop authentication_method decode_string stream
decode_value PropertyType.authentication_data stream =
    dec_prop authentication_data decode_bytes stream
decode_value PropertyType.request_problem_information stream =
    dec_prop request_problem_information U8.decode stream
decode_value PropertyType.will_delay_interval stream =
    dec_prop will_delay_interval U32.decode stream
decode_value PropertyType.request_response_information stream =
    dec_prop request_response_information U8.decode stream
decode_value PropertyType.response_information stream =
    dec_prop response_information decode_string stream
decode_value PropertyType.server_reference stream = dec_prop server_reference decode_string stream
decode_value PropertyType.reason_string stream = dec_prop reason_string decode_string stream
decode_value PropertyType.receive_maximum stream = dec_prop receive_maximum U16.decode stream
decode_value PropertyType.topic_alias_maximum stream =
    dec_prop topic_alias_maximum U16.decode stream
decode_value PropertyType.topic_alias stream = dec_prop topic_alias U16.decode stream
decode_value PropertyType.maximum_qos stream = dec_prop maximum_qos decode_qos stream
decode_value PropertyType.retain_available stream = dec_prop retain_available U8.decode stream
decode_value PropertyType.user_prop stream = dec_prop user_prop decode_user_property stream
decode_value PropertyType.maximum_packet_size stream =
    dec_prop maximum_packet_size U32.decode stream
decode_value PropertyType.wildcard_subscription_available stream =
    dec_prop wildcard_subscription_available U8.decode stream
decode_value PropertyType.subscription_identifier_available stream =
    dec_prop subscription_identifier_available U8.decode stream
decode_value PropertyType.shared_subscription_available stream =
    dec_prop shared_subscription_available U8.decode stream

unfoldable pub decode : Decoder Property
unfolding VarU32.decode decode_value PropertyType.try_from
decode stream = do
  (number, n) ← dec_field VarU32.decode stream 0
  rest ← advance stream n
  prop_type ← PropertyType.try_from number
  (property, m) ← decode_value prop_type rest
  ok (property, n + m)

-- The macro `enc_prop!`: the number of the property, then the value.
unfoldable pub enc_prop : {A : Type 0} → PropertyType → (A → Result Blob) → A → Result (List ℕ)
unfolding VarU32.encode PropertyType.to_u32 as_ref
enc_prop prop_type enc val = do
  number ← VarU32.encode (PropertyType.to_u32 prop_type)
  blob ← enc val
  ok (as_ref number ++ as_ref blob)

-- The arms of `encode`
unfoldable pub encode_value : Property → Result (List ℕ)
unfolding enc_prop encode_qos
encode_value (payload_format_indicator val) =
    enc_prop PropertyType.payload_format_indicator U8.encode val
encode_value (message_expiry_interval val) =
    enc_prop PropertyType.message_expiry_interval U32.encode val
encode_value (content_type val) = enc_prop PropertyType.content_type encode_string val
encode_value (response_topic val) = enc_prop PropertyType.response_topic encode_name val
encode_value (correlation_data val) = enc_prop PropertyType.correlation_data encode_bytes val
encode_value (subscription_identifier val) =
    enc_prop PropertyType.subscription_identifier VarU32.encode val
encode_value (session_expiry_interval val) =
    enc_prop PropertyType.session_expiry_interval U32.encode val
encode_value (assigned_client_identifier val) =
    enc_prop PropertyType.assigned_client_identifier encode_string val
encode_value (server_keep_alive val) = enc_prop PropertyType.server_keep_alive U16.encode val
encode_value (authentication_method val) =
    enc_prop PropertyType.authentication_method encode_string val
encode_value (authentication_data val) = enc_prop PropertyType.authentication_data encode_bytes val
encode_value (request_problem_information val) =
    enc_prop PropertyType.request_problem_information U8.encode val
encode_value (will_delay_interval val) = enc_prop PropertyType.will_delay_interval U32.encode val
encode_value (request_response_information val) =
    enc_prop PropertyType.request_response_information U8.encode val
encode_value (response_information val) =
    enc_prop PropertyType.response_information encode_string val
encode_value (server_reference val) = enc_prop PropertyType.server_reference encode_string val
encode_value (reason_string val) = enc_prop PropertyType.reason_string encode_string val
encode_value (receive_maximum val) = enc_prop PropertyType.receive_maximum U16.encode val
encode_value (topic_alias_maximum val) = enc_prop PropertyType.topic_alias_maximum U16.encode val
encode_value (topic_alias val) = enc_prop PropertyType.topic_alias U16.encode val
encode_value (maximum_qos val) = enc_prop PropertyType.maximum_qos encode_qos val
encode_value (retain_available val) = enc_prop PropertyType.retain_available U8.encode val
encode_value (user_prop val) = enc_prop PropertyType.user_prop encode_user_property val
encode_value (maximum_packet_size val) = enc_prop PropertyType.maximum_packet_size U32.encode val
encode_value (wildcard_subscription_available val) =
    enc_prop PropertyType.wildcard_subscription_available U8.encode val
encode_value (subscription_identifier_available val) =
    enc_prop PropertyType.subscription_identifier_available U8.encode val
encode_value (shared_subscription_available val) =
    enc_prop PropertyType.shared_subscription_available U8.encode val

unfoldable pub encode : Property → Result Blob
unfolding encode_value
encode property = do data_bytes ← encode_value property; ok (large data_bytes)
