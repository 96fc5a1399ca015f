-- ===== src/V5/PubAck/RoundTrip.antt =====
-- An acknowledgement is read back as it was written.
use mymq.Base.{
  ℕ, ◌+◌, ◌≤◌, Bool, false, List, [], ◌∷◌, ◌++◌, length, ◌==◌, ◌≡◌, ◌⊎◌, inl, inr, refl, arith,
}
use mymq.Error.{ok}
use mymq.ReasonCode
use mymq.Types.Blob.{Blob, as_ref, as_ref-small_of, Reads, dec_field-Ahead, past, start-Ahead}
use mymq.Types.U8
use mymq.Types.U16
use mymq.Types.VarU32
use mymq.V5.Qos.{Qos}
use mymq.V5.PacketType.{PacketType}
use mymq.V5.Header
use mymq.V5.Header.{FixedHeader}
use mymq.V5.Header.Flags.{Built, new-Built, constructors-Built}
use mymq.Types.Written.{Written}
use mymq.V5.Frame.{enc_opt_props}
use mymq.V5.Frame.Whole.{PropField, HeaderField, packet-Framed, Framed}
use mymq.V5.AckProps.{decode_ack_props, encode_ack_props}
use mymq.V5.AckProps.Laws.{IsOptProps, opt_ack_bytes}
use mymq.V5.PubAck.{Pub, validate, decode, encode, decode_rest, header_of}

-- The four packet types.
abbrev pub IsAck : PacketType → Type 0
IsAck t =
    (t ≡ PacketType.pub_ack)
    ⊎ (t ≡ PacketType.pub_rec)
    ⊎ (t ≡ PacketType.pub_rel)
    ⊎ (t ≡ PacketType.pub_comp)

-- `PUBREL` has the flags of QoS 1.
abbrev flags : PacketType → Qos
flags PacketType.pub_rel = Qos.at_least_once
flags t = Qos.at_most_once

abbrev parts : PacketType → PacketType × Bool × Qos × Bool
parts t = (t, false, flags t, false)

header_of-Built : (t : PacketType) (n : ℕ) → IsAck t → Built (header_of t n) n (parts t)
unfolding header_of
header_of-Built t n (inl e) = rw e (new-Built PacketType.pub_ack n)
header_of-Built t n (inr (inl e)) = rw e (new-Built PacketType.pub_rec n)
header_of-Built t n (inr (inr (inl e))) =
    rw e (constructors-Built PacketType.pub_rel false false Qos.at_most_once n).2
header_of-Built t n (inr (inr (inr e))) = rw e (new-Built PacketType.pub_comp n)

-- An acknowledgement that can be written.
pub record IsPub (packet : Pub) : Type 0 where
  pub ack : IsAck packet.packet_type
  pub valid : validate packet ≡ ok tt
  pub props : IsOptProps packet.properties
  pub short :
      (blob : Blob)
      → enc_opt_props encode_ack_props packet.properties ≡ ok blob
      → 3 + length (as_ref blob) ≤ VarU32.max_var_u32

-- What stands behind the header.
abbrev body : Pub → List ℕ → List ℕ
body packet bytes = U16.be_bytes packet.packet_id ++ (ReasonCode.to_u8 packet.code ∷ bytes)

module _ (packet : Pub) (f : PropField encode_ack_props decode_ack_props packet.properties)
    (h : HeaderField
      (header_of packet.packet_type)
      (length (body packet (as_ref f.blob)))
      (parts packet.packet_type)) where
  decode-behind :
      (front rest : List ℕ)
      → Reads Header.decode front h.fh
      → validate packet ≡ ok tt
      → decode (front ++ (body packet (as_ref f.blob) ++ rest))
        ≡ ok (packet, length front + length (body packet (as_ref f.blob)))
  decode-behind front rest reads valid =
      let id = U16.be_bytes packet.packet_id in
      let code = ReasonCode.to_u8 packet.code ∷ [] in
      let bytes = as_ref f.blob in
      let all = front ++ (id ++ (code ++ (bytes ++ rest))) in
      let at_id = past front (start-Ahead all) in
      let at_code = past id at_id in
      let at_props = past code at_code in
      let parts_of : Header.unwrap h.fh
          ≡ ok (packet.packet_type, false, flags packet.packet_type, false) =
        h.parts_of in
      let not_two : (h.fh.remaining_len == 2) ≡ false = ground (arith, h.len) in
      let not_three : (h.fh.remaining_len == 3) ≡ false = ground (arith, h.len, f.pos) in
      let total : 0 + length front + length id + length code + length bytes
          ≡ length front + length (body packet bytes) =
        omega arith in
      unfold decode decode_rest in
      rw
        (
          dec_field-Ahead _ reads (start-Ahead all),
          h.valid,
          parts_of,
          dec_field-Ahead _ (U16.decode-be_bytes packet.packet_id) at_id,
          not_two,
          dec_field-Ahead _ (U8.decode-Reads (ReasonCode.to_u8 packet.code)) at_code,
          ReasonCode.try_from-to_u8 packet.code,
          not_three,
          f.reads all rest _ at_props,
          valid,
          total,
        )
        refl

pub encode_pub-Framed :
    (packet : Pub) → IsPub packet → Framed encode decode packet.packet_type packet
encode_pub-Framed packet p =
    let f = opt_ack_bytes packet.properties p.props in
    let bytes = body packet (as_ref f.blob) in
    let short : length bytes ≤ VarU32.max_var_u32 = omega (arith, p.short f.blob f.writes) in
    packet-Framed (header_of packet.packet_type) packet.packet_type false (flags packet.packet_type)
      false bytes short (header_of-Built packet.packet_type (length bytes) p.ack)
      (unfold encode U16.encode U8.encode in
        rw
          (
            f.writes,
            as_ref-small_of (U16.be_bytes packet.packet_id),
            as_ref-small_of (ReasonCode.to_u8 packet.code ∷ []),
          )
          refl)
      (λ h front rest reads. decode-behind packet f h front rest reads p.valid)

-- A valid acknowledgement, whose properties if any are some and which is not too long, is written,
-- and is read back off any stream that begins with what was written, which is all that is taken.
pub encode_pub-Written : (packet : Pub) → IsPub packet → Written encode decode packet
encode_pub-Written packet p = (encode_pub-Framed packet p).written
