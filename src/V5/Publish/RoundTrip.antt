-- ===== src/V5/Publish/RoundTrip.antt =====
-- PUBLISH is read back as it was written.
use mymq.Base.{
  ℕ, ◌+◌, ◌-◌, ◌≤◌, Bool, true, false, List, ◌++◌, Option, none, some, length, leb, ltb, drop, ◌==◌,
  ◌≡◌, refl, arith, append_assoc, length-append, take-append,
}
use mymq.Error.{ok}
use mymq.Types.Blob.{
  Blob, as_ref, Reads, advance, advance_bounds, Ahead, dec_field-Ahead, past, start-Ahead,
}
use mymq.Types.U16
use mymq.Types.VarU32
use mymq.Types.Text.RoundTrip.{IsMqttText}
use mymq.Types.Topic.{validate_name, decode_name, encode_name}
use mymq.Types.Written.{Written, name-Written, u16-Written}
use mymq.V5.PacketType.{PacketType}
use mymq.V5.Header
use mymq.V5.Header.Flags.{new_publish-Built}
use mymq.V5.Frame.{dec_field_if, enc_opt, enc_opt_props}
use mymq.V5.Frame.Whole.{PropField, HeaderField, packet-Framed, Framed}
use mymq.V5.Frame.Opts.{OptField, IsField, opt_field}
use mymq.V5.Payload.{slice}
use mymq.V5.Publish.{Publish, has_id, rest_of, validate, payload_bytes, decode, encode}
use mymq.V5.Publish.Props.{decode_publish_props, encode_publish_props}
use mymq.V5.Publish.Props.Laws.{IsOptProps, opt_publish_props_bytes}

-- A payload that is there has a byte, since an empty one reads back as none.
abbrev pub IsPayload : Option (List ℕ) → Type 0
IsPayload none = Unit
IsPayload (some payload) = 1 ≤ length payload

-- A packet that can be written and read back: it has a packet id exactly if its QoS is above 0.
pub record IsPublish (packet : Publish) : Type 0 where
  pub name : IsMqttText packet.topic_name
  pub valid_name : validate_name packet.topic_name ≡ ok tt
  pub id : IsField (λ id. Unit {0}) (has_id packet.qos) packet.packet_id
  pub props : IsOptProps packet.properties
  pub payload : IsPayload packet.payload
  pub valid : validate packet ≡ ok tt
  pub short :
      (name_blob props_blob : Blob) (id_bytes : List ℕ)
      → encode_name packet.topic_name ≡ ok name_blob
      → enc_opt U16.encode packet.packet_id ≡ ok id_bytes
      → enc_opt_props encode_publish_props packet.properties ≡ ok props_blob
      → length (as_ref name_blob)
          + length id_bytes
          + length (as_ref props_blob)
          + length (payload_bytes packet.payload)
        ≤ VarU32.max_var_u32

-- The end of the packet, with a payload or none.
rest_of-Ahead :
    (stream tail : List ℕ) (o : Option (List ℕ)) (n : ℕ)
    → IsPayload o
    → Ahead stream n (payload_bytes o ++ tail)
    → rest_of stream n (n + length (payload_bytes o)) ≡ ok (o, n + length (payload_bytes o))
unfolding rest_of
rest_of-Ahead stream tail none n h a =
    let same : (n + 0 == n) ≡ true = ground arith in
    let total : n + 0 ≡ n = omega arith in rw (total) (ground arith)
rest_of-Ahead stream tail (some payload) n h a =
    let (le, total) = advance_bounds stream n a.at in
    let there : drop n stream ≡ payload ++ tail = unfold advance in ground (arith, a.at) in
    let some_there : (n + length payload == n) ≡ false = ground arith in
    let fits : leb (n + length payload) (length stream) ≡ true =
      ground (arith, length-append payload tail) in
    let ordered : ltb (n + length payload) n ≡ false = ground arith in
    let size : n + length payload - n ≡ length payload = omega arith in
    unfold slice in rw (some_there, fits, ordered, size, there, take-append payload tail) refl

id-IsField :
    (there : Bool) (o : Option ℕ)
    → IsField (λ id. Unit {0}) there o
    → IsField (Written U16.encode U16.decode) there o
id-IsField true none h = absurd h
id-IsField true (some id) h = u16-Written id
id-IsField false none h = tt
id-IsField false (some id) h = absurd h

module _ (packet : Publish) (w : Written encode_name decode_name packet.topic_name)
    (i : OptField U16.encode (dec_field_if (has_id packet.qos) U16.decode) packet.packet_id)
    (f : PropField encode_publish_props decode_publish_props packet.properties) where
  abbrev body : List ℕ
  body = as_ref w.blob ++ (i.bytes ++ (as_ref f.blob ++ payload_bytes packet.payload))

  body-length :
      length body
      ≡ length (as_ref w.blob)
        + length i.bytes
        + length (as_ref f.blob)
        + length (payload_bytes packet.payload)
  body-length = omega (
    arith,
    length-append (as_ref w.blob) (i.bytes ++ (as_ref f.blob ++ payload_bytes packet.payload)),
    length-append i.bytes (as_ref f.blob ++ payload_bytes packet.payload),
    length-append (as_ref f.blob) (payload_bytes packet.payload),
  )

  decode-behind :
      (h : HeaderField
        (Header.new_publish packet.retain packet.qos packet.duplicate)
        (length body)
        (PacketType.publish, packet.retain, packet.qos, packet.duplicate))
      (front rest : List ℕ)
      → Reads Header.decode front h.fh
      → IsPayload packet.payload
      → validate packet ≡ ok tt
      → decode (front ++ (body ++ rest)) ≡ ok (packet, length front + length body)
  decode-behind h front rest reads good valid =
      let name = as_ref w.blob in
      let bytes = as_ref f.blob in
      let payload = payload_bytes packet.payload in
      let all = front ++ (name ++ (i.bytes ++ (bytes ++ (payload ++ rest)))) in
      let at_name = past front (start-Ahead all) in
      let at_id = past name at_name in
      let at_props = past i.bytes at_id in
      let at_payload = past bytes at_props in
      let end : 0 + length front + h.fh.remaining_len
          ≡ 0 + length front + length name + length i.bytes + length bytes + length payload =
        omega (arith, h.len, body-length) in
      let total : 0 + length front + length name + length i.bytes + length bytes + length payload
          ≡ length front + length body =
        omega (arith, body-length) in
      unfold decode in
      rw
        (
          append_assoc name (i.bytes ++ (bytes ++ payload)) rest,
          append_assoc i.bytes (bytes ++ payload) rest,
          append_assoc bytes payload rest,
          dec_field-Ahead _ reads (start-Ahead all),
          h.valid,
          h.parts_of,
          dec_field-Ahead _ w.reads at_name,
          i.reads all (bytes ++ (payload ++ rest)) _ at_id,
          f.reads all (payload ++ rest) _ at_props,
          end,
          rest_of-Ahead all rest packet.payload _ good at_payload,
          valid,
          total,
        )
        refl

pub publish-Framed :
    (packet : Publish) → IsPublish packet → Framed encode decode PacketType.publish packet
publish-Framed packet p =
    let w = name-Written packet.topic_name p.name p.valid_name in
    let i =
      opt_field U16.encode U16.decode (has_id packet.qos) packet.packet_id
        (id-IsField (has_id packet.qos) packet.packet_id p.id) in
    let f = opt_publish_props_bytes packet.properties p.props in
    let bytes = body packet w i f in
    packet-Framed (Header.new_publish packet.retain packet.qos packet.duplicate) PacketType.publish
      packet.retain packet.qos packet.duplicate bytes
      (omega
        (arith, body-length packet w i f, p.short w.blob f.blob i.bytes w.writes i.writes f.writes))
      (new_publish-Built packet.retain packet.qos packet.duplicate (length bytes))
      (unfold encode in rw (w.writes, i.writes, f.writes) refl)
      (λ h front rest reads. decode-behind packet w i f h front rest reads p.payload p.valid)

-- A valid packet whose topic name is valid, which has a packet id exactly if its QoS is above 0,
-- whose properties and payload if any are some, and which is not too long is written, and is read
-- back off any stream that begins with what was written, which is all that is taken.
pub publish-Written : (packet : Publish) → IsPublish packet → Written encode decode packet
publish-Written packet p = (publish-Framed packet p).written
