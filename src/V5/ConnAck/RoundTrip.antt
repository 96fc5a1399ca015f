-- ===== src/V5/ConnAck/RoundTrip.antt =====
-- CONNACK is read back as it was written.
use mymq.Base.{ℕ, ◌+◌, ◌≤◌, false, List, [], ◌∷◌, ◌++◌, length, ◌≡◌, ◌⊎◌, inl, inr, refl, arith}
use mymq.Error.{ok}
use mymq.Types.Blob.{Blob, as_ref, as_ref-small_of, Reads, dec_field-Ahead, past, start-Ahead}
use mymq.Types.U8
use mymq.Types.VarU32
use mymq.Types.Written.{Written}
use mymq.V5.Qos.{Qos}
use mymq.V5.PacketType.{PacketType}
use mymq.V5.Header
use mymq.V5.Header.Flags.{new-Built}
use mymq.V5.Frame.{enc_opt_props}
use mymq.V5.Frame.Whole.{PropField, HeaderField, packet-Framed, Framed}
use mymq.V5.ConnAck.{ConnAck, decode, decode_flags, encode}
use mymq.V5.ConnAck.Code
use mymq.V5.ConnAck.Props.{decode_connack_props, encode_connack_props}
use mymq.V5.ConnAck.Props.Laws.{IsOptProps, opt_connack_props_bytes}

-- A packet that can be written and read back.
pub record IsConnAck (packet : ConnAck) : Type 0 where
  pub flags : (packet.flags ≡ 0) ⊎ (packet.flags ≡ 1)
  pub props : IsOptProps packet.properties
  pub short :
      (blob : Blob)
      → enc_opt_props encode_connack_props packet.properties ≡ ok blob
      → 2 + length (as_ref blob) ≤ VarU32.max_var_u32

decode_flags-Reads : (flags : ℕ) → (flags ≡ 0) ⊎ (flags ≡ 1) → Reads decode_flags (flags ∷ []) flags
unfolding decode_flags
decode_flags-Reads flags (inl e) = rw e (record {
  at = λ rest. rw (dec_field-Ahead rest (U8.decode-Reads 0) (start-Ahead (0 ∷ rest))) refl;
})
decode_flags-Reads flags (inr e) = rw e (record {
  at = λ rest. rw (dec_field-Ahead rest (U8.decode-Reads 1) (start-Ahead (1 ∷ rest))) refl;
})

module _ (packet : ConnAck)
    (f : PropField encode_connack_props decode_connack_props packet.properties) where
  abbrev body : List ℕ
  body = packet.flags ∷ Code.to_u8 packet.code ∷ as_ref f.blob

  decode-behind :
      (h : HeaderField
        (Header.new PacketType.conn_ack)
        (length body)
        (PacketType.conn_ack, false, Qos.at_most_once, false))
      (front rest : List ℕ)
      → Reads Header.decode front h.fh
      → (packet.flags ≡ 0) ⊎ (packet.flags ≡ 1)
      → decode (front ++ (body ++ rest)) ≡ ok (packet, length front + length body)
  decode-behind h front rest reads good =
      let flags = packet.flags ∷ [] in
      let code = Code.to_u8 packet.code ∷ [] in
      let bytes = as_ref f.blob in
      let all = front ++ (flags ++ (code ++ (bytes ++ rest))) in
      let at_flags = past front (start-Ahead all) in
      let at_code = past flags at_flags in
      let at_props = past code at_code in
      let total : 0 + length front + 1 + 1 + length bytes ≡ length front + length body =
        omega arith in
      unfold decode in
      rw
        (
          dec_field-Ahead _ reads (start-Ahead all),
          h.valid,
          dec_field-Ahead _ (decode_flags-Reads packet.flags good) at_flags,
          dec_field-Ahead _ (U8.decode-Reads (Code.to_u8 packet.code)) at_code,
          Code.try_from-to_u8 packet.code,
          f.reads all rest _ at_props,
          total,
        )
        refl

pub connack-Framed :
    (packet : ConnAck) → IsConnAck packet → Framed encode decode PacketType.conn_ack packet
connack-Framed packet p =
    let f = opt_connack_props_bytes packet.properties p.props in
    packet-Framed (Header.new PacketType.conn_ack) PacketType.conn_ack false Qos.at_most_once false
      (body packet f) (omega (arith, p.short f.blob f.writes))
      (new-Built PacketType.conn_ack (length (body packet f)))
      (unfold encode U8.encode in
        rw
          (
            f.writes,
            as_ref-small_of (packet.flags ∷ []),
            as_ref-small_of (Code.to_u8 packet.code ∷ []),
          )
          refl)
      (λ h front rest reads. decode-behind packet f h front rest reads p.flags)

-- A packet whose properties if any are some and which is not too long is written, and is read back
-- off any stream that begins with what was written, which is all that is taken.
pub connack-Written : (packet : ConnAck) → IsConnAck packet → Written encode decode packet
connack-Written packet p = (connack-Framed packet p).written
