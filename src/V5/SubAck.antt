-- ===== src/V5/SubAck.antt =====
-- suback.rs: the answer to SUBSCRIBE, a return code for each filter.
pub mod Code
use mymq.Error.{Result}
use mymq.Types.Blob.{Blob, Decoder}
use mymq.V5.PacketType
use mymq.V5.AckProps.{AckProperties, set_prop, decode_ack_props, encode_ack_props}
use mymq.V5.CodesAck
use mymq.V5.CodesAck.{CodesAck}
use mymq.V5.SubAck.Code
use mymq.V5.SubAck.Code.{SubAckReasonCode}

abbrev pub SubAckProperties : Type 0
SubAckProperties = AckProperties

unfoldable pub decode_props : Decoder SubAckProperties
unfolding decode_ack_props set_prop
decode_props stream = decode_ack_props stream

unfoldable pub encode_props : SubAckProperties → Result Blob
unfolding encode_ack_props
encode_props props = encode_ack_props props

abbrev pub SubAck : Type 0
SubAck = CodesAck SubAckReasonCode

unfoldable pub decode : Decoder SubAck
unfolding CodesAck.decode
decode stream = CodesAck.decode Code.try_from stream

unfoldable pub encode : SubAck → Result Blob
unfolding CodesAck.encode
encode packet = CodesAck.encode PacketType.sub_ack Code.to_u8 packet
