-- ===== src/V5/Connect/RoundTrip.antt =====
-- CONNECT is read back as it was written.
pub mod Payload
use mymq.Base.{
  ℕ, ◌+◌, ◌≤◌, ◌<◌, false, List, [], ◌∷◌, ◌++◌, length, ◌≡◌, refl, arith, append_assoc,
  length-append,
}
use mymq.Error.{ok, first_step}
use mymq.Types.Blob.{
  Blob, as_ref, as_ref-small_of, Reads, Ahead, dec_field-Ahead, past, start-Ahead,
}
use mymq.Types.U8
use mymq.Types.U16
use mymq.Types.VarU32
use mymq.Types.Protocol
use mymq.Types.Text.{decode_string, encode_string}
use mymq.Types.Text.RoundTrip.{IsMqttText}
use mymq.Types.Written.{Written, string-Written}
use mymq.V5.Qos.{Qos}
use mymq.V5.PacketType.{PacketType}
use mymq.V5.Header
use mymq.V5.Header.Flags.{new-Built}
use mymq.V5.Frame.{enc_opt_props}
use mymq.V5.Frame.Whole.{PropField, HeaderField, packet-Framed, Framed}
use mymq.V5.Connect.{Connect, check_protocol, mqtt_name, validate, encode_payload, decode, encode}
use mymq.V5.Connect.Flags.{check_flags, decode_flags}
use mymq.V5.Connect.Props.{decode_connect_props, encode_connect_props}
use mymq.V5.Connect.Props.Laws.{IsOptProps, opt_connect_props_bytes}
use mymq.V5.Connect.RoundTrip.Payload.{
  IsConnectPayload, PayloadFields, payload_fields, payload_bytes, encode_payload-bytes,
  decode_payload-bytes,
}

-- A packet that can be written and read back.
pub record IsConnect (packet : Connect) : Type 0 where
  pub name : IsMqttText packet.protocol_name
  pub valid : validate packet ≡ ok tt
  pub props : IsOptProps packet.properties
  pub payload : IsConnectPayload packet.flags packet.payload
  pub short :
      (name_blob props_blob : Blob) (bytes : List ℕ)
      → encode_string packet.protocol_name ≡ ok name_blob
      → enc_opt_props encode_connect_props packet.properties ≡ ok props_blob
      → encode_payload packet.payload ≡ ok bytes
      → length (as_ref name_blob) + 4 + length (as_ref props_blob) + length bytes
        ≤ VarU32.max_var_u32

-- Valid flags are read as they are.
decode_flags-Reads : (flags : ℕ) → check_flags flags ≡ ok tt → Reads decode_flags (flags ∷ []) flags
decode_flags-Reads flags h = record {
  at = λ rest.
      unfold decode_flags in
      rw (dec_field-Ahead rest (U8.decode-Reads flags) (start-Ahead (flags ∷ rest)), h) refl;
}

flags_valid : (packet : Connect) → validate packet ≡ ok tt → check_flags packet.flags ≡ ok tt
unfolding validate
flags_valid packet h =
    let (u, e, d) = first_step (check_protocol packet.protocol_name packet.protocol_version) h in
    let (v, e', d') = first_step (check_flags packet.flags) e in d'

module _ (packet : Connect) (w : Written encode_string decode_string packet.protocol_name)
    (f : PropField encode_connect_props decode_connect_props packet.properties)
    (g : PayloadFields packet.flags packet.payload) where
  abbrev fixed : List ℕ
  fixed = Protocol.to_u8 packet.protocol_version ∷ packet.flags ∷ U16.be_bytes packet.keep_alive

  abbrev body : List ℕ
  body = as_ref w.blob ++ (fixed ++ (as_ref f.blob ++ payload_bytes packet.flags packet.payload g))

  body-length :
      length body
      ≡ length (as_ref w.blob)
        + 4
        + length (as_ref f.blob)
        + length (payload_bytes packet.flags packet.payload g)
  body-length =
      let rest = payload_bytes packet.flags packet.payload g in
      omega (
        arith,
        length-append (as_ref w.blob) (fixed ++ (as_ref f.blob ++ rest)),
        length-append (as_ref f.blob) rest,
      )

  decode-behind :
      (h : HeaderField
        (Header.new PacketType.connect)
        (length body)
        (PacketType.connect, false, Qos.at_most_once, false))
      (front rest : List ℕ)
      → Reads Header.decode front h.fh
      → validate packet ≡ ok tt
      → decode (front ++ (body ++ rest)) ≡ ok (packet, length front + length body)
  decode-behind h front rest reads valid =
      let name = as_ref w.blob in
      let version = Protocol.to_u8 packet.protocol_version ∷ [] in
      let flags = packet.flags ∷ [] in
      let keep = U16.be_bytes packet.keep_alive in
      let bytes = as_ref f.blob in
      let payload = payload_bytes packet.flags packet.payload g in
      let all = front ++ (name ++ (version ++ (flags ++ (keep ++ (bytes ++ (payload ++ rest)))))) in
      let at_name = past front (start-Ahead all) in
      let at_version = past name at_name in
      let at_flags = past version at_version in
      let at_keep = past flags at_flags in
      let at_props = past keep at_keep in
      let at_payload = past bytes at_props in
      let total : 0 + length front + length name + 1 + 1 + 2 + length bytes + length payload
          ≡ length front + length body =
        omega (arith, body-length) in
      unfold decode in
      rw
        (
          append_assoc name (fixed ++ (bytes ++ payload)) rest,
          append_assoc bytes payload rest,
          dec_field-Ahead _ reads (start-Ahead all),
          h.valid,
          dec_field-Ahead _ w.reads at_name,
          dec_field-Ahead _ (U8.decode-Reads (Protocol.to_u8 packet.protocol_version)) at_version,
          Protocol.try_from-to_u8 packet.protocol_version,
          dec_field-Ahead _ (decode_flags-Reads packet.flags (flags_valid packet valid)) at_flags,
          dec_field-Ahead _ (U16.decode-be_bytes packet.keep_alive) at_keep,
          f.reads all (payload ++ rest) _ at_props,
          decode_payload-bytes packet.flags packet.payload g all rest _ at_payload,
          valid,
          total,
        )
        refl

pub connect-Framed :
    (packet : Connect) → IsConnect packet → Framed encode decode PacketType.connect packet
connect-Framed packet p =
    let w = string-Written packet.protocol_name p.name in
    let f = opt_connect_props_bytes packet.properties p.props in
    let g = payload_fields packet.flags packet.payload p.payload in
    let bytes = body packet w f g in
    let version = Protocol.to_u8 packet.protocol_version ∷ [] in
    let sent = encode_payload-bytes packet.flags packet.payload g in
    packet-Framed (Header.new PacketType.connect) PacketType.connect false Qos.at_most_once false
      bytes
      (omega (arith, body-length packet w f g, p.short w.blob f.blob _ w.writes f.writes sent))
      (new-Built PacketType.connect (length bytes))
      (unfold encode U8.encode U16.encode in
        rw
          (
            p.valid,
            w.writes,
            f.writes,
            sent,
            as_ref-small_of version,
            as_ref-small_of (packet.flags ∷ []),
            as_ref-small_of (U16.be_bytes packet.keep_alive),
          )
          refl)
      (λ h front rest reads. decode-behind packet w f g h front rest reads p.valid)

-- A valid packet that has the fields which its flags say and no other, whose properties if any are
-- some, and which is not too long is written, and is read back off any stream that begins with
-- what was written, which is all that is taken.
pub connect-Written : (packet : Connect) → IsConnect packet → Written encode decode packet
connect-Written packet p = (connect-Framed packet p).written
