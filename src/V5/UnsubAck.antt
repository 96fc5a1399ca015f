-- ===== src/V5/UnsubAck.antt =====
-- unsuback.rs: the answer to UNSUBSCRIBE, a return code for each filter.
pub mod Code
use mymq.Error.{Result}
use mymq.Types.Blob.{Blob, Decoder}
use mymq.V5.PacketType
use mymq.V5.AckProps.{AckProperties, set_prop, decode_ack_props, encode_ack_props}
use mymq.V5.CodesAck
use mymq.V5.CodesAck.{CodesAck}
use mymq.V5.UnsubAck.Code
use mymq.V5.UnsubAck.Code.{UnsubAckReasonCode}

abbrev pub UnsubAckProperties : Type 0
UnsubAckProperties = AckProperties

unfoldable pub decode_props : Decoder UnsubAckProperties
unfolding decode_ack_props set_prop
decode_props stream = decode_ack_props stream

unfoldable pub encode_props : UnsubAckProperties → Result Blob
unfolding encode_ack_props
encode_props props = encode_ack_props props

abbrev pub UnsubAck : Type 0
UnsubAck = CodesAck UnsubAckReasonCode

unfoldable pub decode : Decoder UnsubAck
unfolding CodesAck.decode
decode stream = CodesAck.decode Code.try_from stream

unfoldable pub encode : UnsubAck → Result Blob
unfolding CodesAck.encode
encode packet = CodesAck.encode PacketType.unsub_ack Code.to_u8 packet
