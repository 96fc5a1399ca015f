-- ===== src/V5/CodesAck/RoundTrip.antt =====
-- A packet of return codes is read back as it was written.
use mymq.Base.{
  ℕ, ◌+◌, ◌≤◌, false, List, ◌++◌, map, length, ◌≡◌, refl, arith, append_assoc, length-append,
}
use mymq.Error.{Result, ok, malformed}
use mymq.Types.Blob.{Blob, as_ref, as_ref-small_of, Reads, dec_field-Ahead, past, start-Ahead}
use mymq.Types.U16
use mymq.Types.VarU32
use mymq.V5.Qos.{Qos}
use mymq.V5.PacketType.{PacketType}
use mymq.V5.Header
use mymq.V5.Header.Flags.{new-Built}
use mymq.V5.Frame.{enc_opt_props}
use mymq.V5.Frame.Whole.{PropField, HeaderField, packet-Framed, Framed}
use mymq.V5.AckProps.{decode_ack_props, encode_ack_props}
use mymq.V5.AckProps.Laws.{IsOptProps, opt_ack_bytes}
use mymq.V5.Payload.Laws.{payload_of-Ahead, try_all-map, length-map}
use mymq.V5.CodesAck.{CodesAck, decode, encode}

-- A packet that can be written and read back: it has a return code.
pub record IsCodesAck {C : Type 0} (packet : CodesAck C) : Type 0 where
  pub props : IsOptProps packet.properties
  pub some_there : 1 ≤ length packet.return_codes
  pub short :
      (blob : Blob)
      → enc_opt_props encode_ack_props packet.properties ≡ ok blob
      → 2 + length (as_ref blob) + length packet.return_codes ≤ VarU32.max_var_u32

module _ {C : Type 0} (t : PacketType) (try_from : ℕ → Result C) (to_u8 : C → ℕ)
    (same : (c : C) → try_from (to_u8 c) ≡ ok c) (packet : CodesAck C)
    (f : PropField encode_ack_props decode_ack_props packet.properties) where
  abbrev body : List ℕ
  body = U16.be_bytes packet.packet_id ++ (as_ref f.blob ++ map to_u8 packet.return_codes)

  body-length : length body ≡ 2 + length (as_ref f.blob) + length packet.return_codes
  body-length = omega (
    arith,
    length-append (as_ref f.blob) (map to_u8 packet.return_codes),
    length-map to_u8 packet.return_codes,
  )

  decode-behind :
      (h : HeaderField (Header.new t) (length body) (t, false, Qos.at_most_once, false))
      (front rest : List ℕ)
      → Reads Header.decode front h.fh
      → 1 ≤ length packet.return_codes
      → decode try_from (front ++ (body ++ rest)) ≡ ok (packet, length front + length body)
  decode-behind h front rest reads pos =
      let id = U16.be_bytes packet.packet_id in
      let bytes = as_ref f.blob in
      let codes = map to_u8 packet.return_codes in
      let all = front ++ (id ++ (bytes ++ (codes ++ rest))) in
      let at_id = past front (start-Ahead all) in
      let at_props = past id at_id in
      let at_codes = past bytes at_props in
      let end : 0 + length front + h.fh.remaining_len
          ≡ 0 + length front + 2 + length bytes + length codes =
        omega (arith, h.len, length-append bytes codes) in
      let total : 0 + length front + 2 + length bytes + length codes ≡ length front + length body =
        omega (arith, length-append bytes codes) in
      let some_codes : 1 ≤ length codes = omega (arith, length-map to_u8 packet.return_codes) in
      unfold decode in
      rw
        (
          append_assoc bytes codes rest,
          dec_field-Ahead _ reads (start-Ahead all),
          h.valid,
          dec_field-Ahead _ (U16.decode-be_bytes packet.packet_id) at_id,
          f.reads all (codes ++ rest) _ at_props,
          end,
          payload_of-Ahead malformed all codes rest _ some_codes at_codes,
          try_all-map try_from to_u8 same packet.return_codes,
          total,
        )
        refl

-- A packet of return codes whose properties if any are some, which has a code and which is not too
-- long is written, and is read back off any stream that begins with what was written.
pub codes_ack-Framed :
    {C : Type 0} (t : PacketType) (try_from : ℕ → Result C) (to_u8 : C → ℕ)
    → ((c : C) → try_from (to_u8 c) ≡ ok c)
    → (packet : CodesAck C) → IsCodesAck packet
    → Framed (encode t to_u8) (decode try_from) t packet
codes_ack-Framed t try_from to_u8 same packet p =
    let f = opt_ack_bytes packet.properties p.props in
    let bytes = body t try_from to_u8 same packet f in
    let size = body-length t try_from to_u8 same packet f in
    let short : length bytes ≤ VarU32.max_var_u32 = omega (arith, size, p.short f.blob f.writes) in
    packet-Framed (Header.new t) t false Qos.at_most_once false bytes short
      (new-Built t (length bytes))
      (unfold encode U16.encode in
        rw (f.writes, as_ref-small_of (U16.be_bytes packet.packet_id)) refl)
      (λ h front rest reads.
        decode-behind t try_from to_u8 same packet f h front rest reads p.some_there)
