-- ===== src/V5/CodesAck.antt =====
-- `SubAck` of suback.rs and `UnsubAck` of unsuback.rs, whose code is the same but for the packet
-- type and the reason codes.
pub mod RoundTrip
pub mod Safe
use mymq.Base.{ℕ, ◌+◌, List, ◌++◌, map, Option}
use mymq.Error.{Result, ok, malformed, ◌>>=◌}
use mymq.Types.Blob.{Blob, as_ref, Decoder, dec_field}
use mymq.Types.U16
use mymq.V5.PacketType.{PacketType}
use mymq.V5.Header
use mymq.V5.Frame.{dec_props, enc_opt_props, close_packet}
use mymq.V5.AckProps.{AckProperties, decode_ack_props, encode_ack_props}
use mymq.V5.Payload.{payload_of, try_all}

pub record CodesAck (C : Type 0) : Type 0 where
  pub packet_id : ℕ
  pub properties : Option AckProperties
  pub return_codes : List C

module _ {C : Type 0} where
  -- Packets in which no byte stands behind the properties are refused.
  unfoldable pub decode : (ℕ → Result C) → Decoder (CodesAck C)
  unfolding dec_field Header.decode Header.validate U16.decode dec_props decode_ack_props
  decode try_from stream = do
    (fh, fh_len) ← dec_field Header.decode stream 0
    _ ← Header.validate fh
    (packet_id, n) ← dec_field U16.decode stream fh_len
    (properties, r) ← dec_props decode_ack_props stream n
    (payload, m) ← payload_of malformed stream r (fh_len + fh.remaining_len)
    return_codes ← try_all try_from payload
    let packet : CodesAck C = record {
      packet_id = packet_id;
      properties = properties;
      return_codes = return_codes;
    }
    ok (packet, m)

  unfoldable pub encode : PacketType → (C → ℕ) → CodesAck C → Result Blob
  unfolding U16.encode enc_opt_props encode_ack_props close_packet Header.new as_ref
  encode packet_type to_u8 packet = do
    id_blob ← U16.encode packet.packet_id
    props_blob ← enc_opt_props encode_ack_props packet.properties
    close_packet (Header.new packet_type)
        (as_ref id_blob ++ (as_ref props_blob ++ map to_u8 packet.return_codes))
