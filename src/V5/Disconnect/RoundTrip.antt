-- ===== src/V5/Disconnect/RoundTrip.antt =====
-- DISCONNECT is read back as it was written.
use mymq.Base.{ℕ, ◌+◌, ◌≤◌, false, List, [], ◌∷◌, ◌++◌, length, ltb, ◌==◌, ◌≡◌, refl, arith}
use mymq.Error.{ok}
use mymq.Types.Blob.{Blob, as_ref, as_ref-small_of, Reads, dec_field-Ahead, past, start-Ahead}
use mymq.Types.U8
use mymq.Types.VarU32
use mymq.Types.Written.{Written}
use mymq.V5.Qos.{Qos}
use mymq.V5.PacketType.{PacketType}
use mymq.V5.Header
use mymq.V5.Header.Flags.{new-Built}
use mymq.V5.Frame.{enc_opt_props}
use mymq.V5.Frame.Whole.{PropField, HeaderField, packet-Framed, Framed}
use mymq.V5.Disconnect.{Disconnect, decode, decode_rest, encode}
use mymq.V5.Disconnect.Code
use mymq.V5.Disconnect.Props.{decode_disconn_props, encode_disconn_props}
use mymq.V5.Disconnect.Props.Laws.{IsOptProps, opt_disconn_props_bytes}

-- A packet that can be written and read back.
pub record IsDisconnect (packet : Disconnect) : Type 0 where
  pub props : IsOptProps packet.properties
  pub short :
      (blob : Blob)
      → enc_opt_props encode_disconn_props packet.properties ≡ ok blob
      → 1 + length (as_ref blob) ≤ VarU32.max_var_u32

module _ (packet : Disconnect)
    (f : PropField encode_disconn_props decode_disconn_props packet.properties) where
  abbrev body : List ℕ
  body = Code.to_u8 packet.code ∷ as_ref f.blob

  decode-behind :
      (h : HeaderField
        (Header.new PacketType.disconnect)
        (length body)
        (PacketType.disconnect, false, Qos.at_most_once, false))
      (front rest : List ℕ)
      → Reads Header.decode front h.fh
      → decode (front ++ (body ++ rest)) ≡ ok (packet, length front + length body)
  decode-behind h front rest reads =
      let code = Code.to_u8 packet.code ∷ [] in
      let bytes = as_ref f.blob in
      let all = front ++ (code ++ (bytes ++ rest)) in
      let at_code = past front (start-Ahead all) in
      let at_props = past code at_code in
      let not_empty : (h.fh.remaining_len == 0) ≡ false = ground (arith, h.len) in
      let not_short : ltb h.fh.remaining_len 2 ≡ false = ground (arith, h.len, f.pos) in
      let total : 0 + length front + 1 + length bytes ≡ length front + length body = omega arith in
      unfold decode decode_rest in
      rw
        (
          dec_field-Ahead _ reads (start-Ahead all),
          h.valid,
          not_empty,
          dec_field-Ahead _ (U8.decode-Reads (Code.to_u8 packet.code)) at_code,
          Code.try_from-to_u8 packet.code,
          not_short,
          f.reads all rest _ at_props,
          total,
        )
        refl

pub disconnect-Framed :
    (packet : Disconnect) → IsDisconnect packet → Framed encode decode PacketType.disconnect packet
disconnect-Framed packet p =
    let f = opt_disconn_props_bytes packet.properties p.props in
    packet-Framed (Header.new PacketType.disconnect) PacketType.disconnect false Qos.at_most_once
      false (body packet f) (omega (arith, p.short f.blob f.writes))
      (new-Built PacketType.disconnect (length (body packet f)))
      (unfold encode U8.encode in rw (f.writes, as_ref-small_of (Code.to_u8 packet.code ∷ [])) refl)
      (decode-behind packet f)

-- A packet whose properties if any are some and which is not too long is written, and is read back
-- off any stream that begins with what was written, which is all that is taken.
pub disconnect-Written : (packet : Disconnect) → IsDisconnect packet → Written encode decode packet
disconnect-Written packet p = (disconnect-Framed packet p).written
