-- ===== src/V5/Publish.antt =====
-- publish.rs: PUBLISH, a message under a topic name.
pub mod Fields
pub mod Route
pub mod Props
pub mod RoundTrip
pub mod Safe
use mymq.Base.{
  ℕ, ◌+◌, Bool, true, false, List, [], ◌∷◌, ◌++◌, Option, none, some, length, leb, ◌==◌,
  if◌then◌else◌,
}
use mymq.Error.{Error, ErrorKind, ReasonCode, Result, ok, err, malformed, ◌>>=◌, ◌>>◌}
use mymq.Types.Blob.{Blob, as_ref, Decoder, dec_field}
use mymq.Types.U16
use mymq.Types.Utf8.{from_utf8}
use mymq.Types.Topic.{TopicName, decode_name, encode_name}
use mymq.V5.Qos.{Qos, at_most_once, at_least_once, exactly_once}
use mymq.V5.Header
use mymq.V5.Frame.{dec_field_if, dec_props, enc_opt_props, enc_opt, close_packet}
use mymq.V5.Payload.{slice}
use mymq.V5.PayloadFormat.{is_utf8}
use mymq.V5.Publish.Props.{
  PublishProperties, default_props, decode_publish_props, encode_publish_props,
}

pub record Publish : Type 0 where
  pub retain : Bool
  pub qos : Qos
  pub duplicate : Bool
  pub topic_name : TopicName
  pub packet_id : Option ℕ
  pub properties : Option PublishProperties
  pub payload : Option (List ℕ)

-- `matches!(qos, QoS::AtLeastOnce | QoS::ExactlyOnce)`
abbrev pub has_id : Qos → Bool
has_id at_most_once = false
has_id at_least_once = true
has_id exactly_once = true

-- The match on the end of the packet.
unfoldable pub rest_of : List ℕ → ℕ → ℕ → Result (Option (List ℕ) × ℕ)
rest_of stream n m =
    if m == n
    then ok (none, n)
    else if leb m (length stream)
    then (slice stream n m >>= λ payload. ok (some payload, m))
    else err malformed

abbrev pub payload_format_invalid : Error
payload_format_invalid = record {
  kind = ErrorKind.malformed_packet;
  code = some ReasonCode.payload_format_invalid;
}

-- The first match of `validate`.
unfoldable pub check_qos : Qos → Bool → Option ℕ → Result (Unit {0})
check_qos at_most_once true packet_id = err malformed
check_qos at_most_once false packet_id = ok tt
check_qos at_least_once duplicate none = err malformed
check_qos at_least_once duplicate (some id) = ok tt
check_qos exactly_once duplicate none = err malformed
check_qos exactly_once duplicate (some id) = ok tt

-- `str::from_utf8` of the payload, if the properties say that it is text.
unfoldable pub check_text : Option PublishProperties → Option (List ℕ) → Result (Unit {0})
check_text none payload = ok tt
check_text (some props) none = ok tt
check_text (some props) (some payload) =
    if is_utf8 props.payload_format_indicator
    then elim (from_utf8 payload) [ none ↦ err payload_format_invalid | some text ↦ ok tt ]
    else ok tt

unfoldable pub validate : Publish → Result (Unit {0})
unfolding check_qos check_text
validate packet =
    check_qos packet.qos packet.duplicate packet.packet_id
    >> check_text packet.properties packet.payload

unfoldable pub decode : Decoder Publish
unfolding dec_field Header.decode Header.validate Header.unwrap decode_name dec_field_if U16.decode
    dec_props decode_publish_props
decode stream = do
  (fh, fh_len) ← dec_field Header.decode stream 0
  _ ← Header.validate fh
  (packet_type, retain, qos, duplicate) ← Header.unwrap fh
  (topic_name, n) ← dec_field decode_name stream fh_len
  (packet_id, m) ← dec_field_if (has_id qos) U16.decode stream n
  (properties, r) ← dec_props decode_publish_props stream m
  (payload, end) ← rest_of stream r (fh_len + fh.remaining_len)
  let packet : Publish = record {
    retain = retain;
    qos = qos;
    duplicate = duplicate;
    topic_name = topic_name;
    packet_id = packet_id;
    properties = properties;
    payload = payload;
  }
  validate packet >> ok (packet, end)

-- `if let Some(payload)`
abbrev pub payload_bytes : Option (List ℕ) → List ℕ
payload_bytes none = []
payload_bytes (some payload) = payload

unfoldable pub encode : Publish → Result Blob
unfolding encode_name U16.encode enc_opt enc_opt_props encode_publish_props close_packet
    Header.new_publish as_ref
encode packet = do
  name_blob ← encode_name packet.topic_name
  id_bytes ← enc_opt U16.encode packet.packet_id
  props_blob ← enc_opt_props encode_publish_props packet.properties
  close_packet (Header.new_publish packet.retain packet.qos packet.duplicate)
      (as_ref name_blob ++ (id_bytes ++ (as_ref props_blob ++ payload_bytes packet.payload)))

unfoldable pub set_fixed_header : Bool → Qos → Bool → Publish → Publish
set_fixed_header retain qos dup packet = record packet {
  retain = retain;
  qos = qos;
  duplicate = dup;
}

unfoldable pub set_packet_id : ℕ → Publish → Publish
set_packet_id id packet = record packet { packet_id = some id }

-- One round of `set_subscription_ids`.
unfoldable pub push_id : ℕ → Option PublishProperties → Option PublishProperties
push_id id none = some (record default_props { subscribtion_identifier = id ∷ [] })
push_id id (some props) =
    some (record props { subscribtion_identifier = props.subscribtion_identifier ++ (id ∷ []) })

unfoldable pub set_subscription_ids : List ℕ → Publish → Publish
unfolding push_id
set_subscription_ids [] packet = packet
set_subscription_ids (id ∷ ids) packet =
    set_subscription_ids ids (record packet { properties = push_id id packet.properties })

unfoldable pub topic_alias : Publish → Option ℕ
topic_alias packet = elim packet.properties [ none ↦ none | some props ↦ props.topic_alias ]
