-- ===== src/V5/PubAck.antt =====
-- pubaclc.rs: PUBACK, PUBREC, PUBREL and PUBCOMP.
pub mod RoundTrip
pub mod Safe
use mymq.Base.{
  ℕ, ◌+◌, Bool, true, false, List, [], ◌∷◌, ◌++◌, Option, none, some, length, ◌==◌, if◌then◌else◌,
}
use mymq.Error.{Result, ok, err, panic, malformed, protocol, protocol_desc, ReasonCode, ◌>>=◌, ◌>>◌}
use mymq.ReasonCode
use mymq.Types.Blob.{Blob, large, as_ref, Decoder, dec_field}
use mymq.Types.U8
use mymq.Types.U16
use mymq.Types.VarU32
use mymq.Types.Utf8.{Str}
use mymq.Types.Text.{UserProperty, encode_string, encode_user_property}
use mymq.V5.Header
use mymq.V5.Header.{FixedHeader}
use mymq.V5.PacketType.{PacketType}
use mymq.V5.PropertyType.{PropertyType}
use mymq.V5.Property.{Property, enc_prop}
use mymq.V5.Frame.{dec_props, enc_opt_props, close_packet}
use mymq.V5.AckProps.{AckProperties, decode_ack_props, encode_ack_props}

abbrev pub PubProperties : Type 0
PubProperties = AckProperties

pub record Pub : Type 0 where
  pub packet_type : PacketType
  pub packet_id : ℕ
  pub code : ReasonCode
  pub properties : Option PubProperties

-- Whether `PUBACK` and `PUBREC`, or `PUBREL` and `PUBCOMP`, may carry the code.
unfoldable pub ack_code : ReasonCode → Bool
ack_code ReasonCode.success = true
ack_code ReasonCode.no_matching_subscribers = true
ack_code ReasonCode.unspecified_error = true
ack_code ReasonCode.implementation_error = true
ack_code ReasonCode.not_authorized = true
ack_code ReasonCode.topic_name_invalid = true
ack_code ReasonCode.packet_id_inuse = true
ack_code ReasonCode.packet_id_not_found = true
ack_code ReasonCode.quota_exceeded = true
ack_code ReasonCode.payload_format_invalid = true
ack_code code = false

unfoldable pub rel_code : ReasonCode → Bool
rel_code ReasonCode.success = true
rel_code ReasonCode.packet_id_not_found = true
rel_code code = false

abbrev check_code : Bool → Result (Unit {0})
check_code true = ok tt
check_code false = err malformed

unfoldable pub validate : Pub → Result (Unit {0})
unfolding ack_code rel_code
validate packet = elim packet.packet_type [
  | PacketType.pub_ack ↦ check_code (ack_code packet.code)
  | PacketType.pub_rec ↦ check_code (ack_code packet.code)
  | PacketType.pub_rel ↦ check_code (rel_code packet.code)
  | PacketType.pub_comp ↦ check_code (rel_code packet.code)
  | _ ↦ panic
]

-- The code and the properties, which the length of the packet says are there or not.
unfoldable pub decode_rest : ℕ → List ℕ → ℕ → Result (ReasonCode × Option PubProperties × ℕ)
unfolding dec_field U8.decode ReasonCode.try_from dec_props decode_ack_props
decode_rest remaining_len stream n =
    if remaining_len == 2
    then ok (ReasonCode.success, none, n)
    else (dec_field U8.decode stream n >>= λ (val, m). ReasonCode.try_from val >>= λ code.
        if remaining_len == 3
        then ok (code, none, m)
        else (dec_props decode_ack_props stream m >>= λ (properties, r). ok (code, properties, r)))

unfoldable pub decode : Decoder Pub
unfolding dec_field Header.decode Header.validate Header.unwrap U16.decode decode_rest validate
decode stream = do
  (fh, n) ← dec_field Header.decode stream 0
  _ ← Header.validate fh
  (packet_type, retain, qos, dup) ← Header.unwrap fh
  (packet_id, m) ← dec_field U16.decode stream n
  (code, properties, r) ← decode_rest fh.remaining_len stream m
  let packet : Pub = record {
    packet_type = packet_type;
    packet_id = packet_id;
    code = code;
    properties = properties;
  }
  validate packet >> ok (packet, r)

-- The match on the packet type in `encode`.
unfoldable pub header_of : PacketType → ℕ → Result FixedHeader
unfolding Header.new Header.new_pubrel
header_of PacketType.pub_ack remaining_len = Header.new PacketType.pub_ack remaining_len
header_of PacketType.pub_rel remaining_len = Header.new_pubrel remaining_len
header_of PacketType.pub_rec remaining_len = Header.new PacketType.pub_rec remaining_len
header_of PacketType.pub_comp remaining_len = Header.new PacketType.pub_comp remaining_len
header_of packet_type remaining_len = err protocol_desc

unfoldable pub encode : Pub → Result Blob
unfolding U16.encode U8.encode ReasonCode.to_u8 enc_opt_props encode_ack_props header_of
    close_packet as_ref
encode packet = do
  id_blob ← U16.encode packet.packet_id
  code_blob ← U8.encode (ReasonCode.to_u8 packet.code)
  props_blob ← enc_opt_props encode_ack_props packet.properties
  close_packet (header_of packet.packet_type)
      (as_ref id_blob ++ (as_ref code_blob ++ as_ref props_blob))
