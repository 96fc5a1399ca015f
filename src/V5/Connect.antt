-- ===== src/V5/Connect.antt =====
-- connect.rs: CONNECT, the first packet of a client.
pub mod Flags
pub mod Props
pub mod Will
pub mod RoundTrip
pub mod Safe
use mymq.Base.{
  ℕ, ◌/◌, Bool, true, false, List, [], ◌∷◌, ◌++◌, Option, none, some, ◌==◌, ltb, bit_and,
  if◌then◌else◌,
}
use mymq.Error.{Error, ErrorKind, ReasonCode, Result, ok, err, panic, malformed, ◌>>=◌, ◌>>◌}
use mymq.Types.Blob.{Blob, as_ref, Decoder, dec_field}
use mymq.Types.U8
use mymq.Types.U16
use mymq.Types.Utf8.{Str, from_utf8}
use mymq.Types.StrOrd
use mymq.Types.Text.{decode_string, encode_string, decode_bytes, encode_bytes}
use mymq.Types.Topic.{TopicName, decode_name, encode_name}
use mymq.Types.Protocol
use mymq.Types.Protocol.{MqttProtocol, ClientId}
use mymq.V5.PacketType.{PacketType}
use mymq.V5.Qos
use mymq.V5.Header
use mymq.V5.Frame.{dec_field_if, dec_props, dec_props_if, enc_opt_props, enc_opt, close_packet}
use mymq.V5.PayloadFormat.{is_utf8}
use mymq.V5.Connect.Flags.{
  will_qos_mask, will_flag, has, is_will_flag, is_username, is_password, check_flags, decode_flags,
}
use mymq.V5.Connect.Props.{ConnectProperties, decode_connect_props, encode_connect_props}
use mymq.V5.Connect.Will.{WillProperties, decode_will_props, encode_will_props}

pub record ConnectPayload : Type 0 where
  pub client_id : ClientId
  pub will_properties : Option WillProperties
  pub will_topic : Option TopicName
  pub will_payload : Option (List ℕ)
  pub username : Option Str
  pub password : Option (List ℕ)

pub record Connect : Type 0 where
  pub protocol_name : Str
  pub protocol_version : MqttProtocol
  pub flags : ℕ
  pub keep_alive : ℕ
  pub properties : Option ConnectProperties
  pub payload : ConnectPayload

-- "MQTT"
abbrev pub mqtt_name : Str
mqtt_name = b'M' ∷ b'Q' ∷ b'T' ∷ b'T' ∷ []

abbrev pub unsupported_version : Error
unsupported_version = record {
  kind = ErrorKind.protocol_error;
  code = some ReasonCode.unsupported_protocol_version;
}

same_str : Str → Str → Bool
same_str [] [] = true
same_str (c ∷ s) (d ∷ t) = if c == d then same_str s t else false
same_str _ _ = false

is_v5 : MqttProtocol → Bool
is_v5 Protocol.v5 = true
is_v5 Protocol.v4 = false

-- The three fields that a will must have; only its text may have to be checked.
unfoldable pub check_will : Bool → ConnectPayload → Result (Unit {0})
check_will false payload = ok tt
check_will true payload = elim payload.will_topic [
  | none ↦ err malformed
  | some topic ↦ elim payload.will_properties [
    | none ↦ err malformed
    | some props ↦ elim payload.will_payload [ none ↦ err malformed | some bytes ↦ ok tt ]
  ]
]

-- `str::from_utf8(pld.will_payload.as_ref().unwrap())`
check_utf8 : Option (List ℕ) → Result (Unit {0})
check_utf8 none = panic
check_utf8 (some bytes) = elim (from_utf8 bytes) [ none ↦ err malformed | some text ↦ ok tt ]

unfoldable pub check_will_text : Option WillProperties → Option (List ℕ) → Result (Unit {0})
unfolding check_utf8
check_will_text none will_payload = ok tt
check_will_text (some props) will_payload =
    if is_utf8 props.payload_format_indicator then check_utf8 will_payload else ok tt

unfoldable pub check_protocol : Str → MqttProtocol → Result (Unit {0})
unfolding same_str is_v5
check_protocol name version =
    if same_str name mqtt_name
    then (if is_v5 version then ok tt else err unsupported_version)
    else err unsupported_version

unfoldable pub check_will_qos : ℕ → Result (Unit {0})
unfolding Qos.try_from
check_will_qos flags = Qos.try_from (bit_and flags will_qos_mask / 8) >>= λ qos. ok tt

unfoldable pub validate : Connect → Result (Unit {0})
unfolding check_protocol check_flags check_will_qos check_will check_will_text
validate packet = do
  check_protocol packet.protocol_name packet.protocol_version
  check_flags packet.flags
  check_will_qos packet.flags
  check_will (has will_flag packet.flags) packet.payload
  check_will_text packet.payload.will_properties packet.payload.will_payload

-- The fields of the payload, some of which the flags say are there.
unfoldable pub decode_payload : ℕ → List ℕ → ℕ → Result (ConnectPayload × ℕ)
unfolding dec_field decode_string dec_props_if decode_will_props dec_field_if decode_name
    decode_bytes is_will_flag is_username is_password
decode_payload flags stream n = do
  (client_id, n1) ← dec_field decode_string stream n
  (will_properties, n2) ← dec_props_if (is_will_flag flags) decode_will_props stream n1
  (will_topic, n3) ← dec_field_if (is_will_flag flags) decode_name stream n2
  (will_payload, n4) ← dec_field_if (is_will_flag flags) decode_bytes stream n3
  (username, n5) ← dec_field_if (is_username flags) decode_string stream n4
  (password, n6) ← dec_field_if (is_password flags) decode_bytes stream n5
  let payload : ConnectPayload = record {
    client_id = client_id;
    will_properties = will_properties;
    will_topic = will_topic;
    will_payload = will_payload;
    username = username;
    password = password;
  }
  ok (payload, n6)

unfoldable pub decode : Decoder Connect
unfolding dec_field Header.decode Header.validate decode_string U8.decode Protocol.try_from
    decode_flags U16.decode dec_props decode_connect_props
decode stream = do
  (fh, n) ← dec_field Header.decode stream 0
  _ ← Header.validate fh
  (protocol_name, n1) ← dec_field decode_string stream n
  (val, n2) ← dec_field U8.decode stream n1
  protocol_version ← Protocol.try_from val
  (flags, n3) ← dec_field decode_flags stream n2
  (keep_alive, n4) ← dec_field U16.decode stream n3
  (properties, n5) ← dec_props decode_connect_props stream n4
  (payload, n6) ← decode_payload flags stream n5
  let packet : Connect = record {
    protocol_name = protocol_name;
    protocol_version = protocol_version;
    flags = flags;
    keep_alive = keep_alive;
    properties = properties;
    payload = payload;
  }
  validate packet >> ok (packet, n6)

unfoldable pub encode_payload : ConnectPayload → Result (List ℕ)
unfolding encode_string enc_opt encode_will_props encode_name encode_bytes as_ref
encode_payload payload = do
  id_blob ← encode_string payload.client_id
  props_bytes ← enc_opt encode_will_props payload.will_properties
  topic_bytes ← enc_opt encode_name payload.will_topic
  will_bytes ← enc_opt encode_bytes payload.will_payload
  user_bytes ← enc_opt encode_string payload.username
  pass_bytes ← enc_opt encode_bytes payload.password
  ok (
      as_ref id_blob
      ++ (props_bytes ++ (topic_bytes ++ (will_bytes ++ (user_bytes ++ pass_bytes)))))

unfoldable pub encode : Connect → Result Blob
unfolding validate encode_string U8.encode Protocol.to_u8 U16.encode enc_opt_props
    encode_connect_props encode_payload close_packet Header.new as_ref
encode packet = do
  _ ← validate packet
  name_blob ← encode_string packet.protocol_name
  version_blob ← U8.encode (Protocol.to_u8 packet.protocol_version)
  flags_blob ← U8.encode packet.flags
  keep_blob ← U16.encode packet.keep_alive
  props_blob ← enc_opt_props encode_connect_props packet.properties
  payload_bytes ← encode_payload packet.payload
  close_packet (Header.new PacketType.connect) (
      as_ref name_blob
      ++ (as_ref version_blob
          ++ (as_ref flags_blob ++ (as_ref keep_blob ++ (as_ref props_blob ++ payload_bytes)))))
