-- ===== src/V5/Subscribe/RoundTrip.antt =====
-- SUBSCRIBE is read back as it was written.
use mymq.Base.{
  ℕ, ◌+◌, ◌≤◌, false, List, [], ◌∷◌, ◌++◌, length, ◌≡◌, refl, arith, append_assoc, length-append,
  All,
}
use mymq.Error.{ok, malformed, first_step}
use mymq.Types.Blob.{
  Blob, large, dec_field, two_parts, as_ref, as_ref-small_of, Reads, dec_field-Ahead, past,
  start-Ahead,
}
use mymq.Types.U8
use mymq.Types.U16
use mymq.Types.VarU32
use mymq.Types.Text.RoundTrip.{IsMqttText}
use mymq.Types.Topic.{validate_filter, decode_filter}
use mymq.Types.Written.{Written, filter-Written}
use mymq.V5.Qos.{Qos}
use mymq.V5.PacketType.{PacketType}
use mymq.V5.Header
use mymq.V5.Header.Flags.{constructors-Built}
use mymq.V5.Frame.{enc_opt_props}
use mymq.V5.Frame.Whole.{PropField, HeaderField, packet-Framed, Framed}
use mymq.V5.Payload.{enc_entries}
use mymq.V5.Payload.Laws.{
  payload_of-Ahead, Entries, entries-Entries, Entries-pos, enc_entries-Entries, decode_filter-Takes,
  decode_u8-Takes, field_grows, Takes,
}
use mymq.V5.Subscribe.{
  Subscribe, SubscribeFilter, validate, decode_sub_filter, encode_sub_filter, decode, encode,
}
use mymq.V5.Subscribe.Props.{decode_sub_props, encode_sub_props}
use mymq.V5.Subscribe.Props.Laws.{IsOptProps, opt_sub_props_bytes}

abbrev pub IsSubFilter : SubscribeFilter → Type 0
IsSubFilter filter = IsMqttText filter.topic_filter × (validate_filter filter.topic_filter ≡ ok tt)

sub_filter-Written :
    (filter : SubscribeFilter)
    → IsSubFilter filter
    → Written encode_sub_filter decode_sub_filter filter
sub_filter-Written filter h =
    let w = filter-Written filter.topic_filter h.0 h.1 in
    let name = as_ref w.blob in
    let opt = filter.opt ∷ [] in
    record {
      blob = large (name ++ opt);
      writes = unfold encode_sub_filter U8.encode in rw (w.writes, as_ref-small_of opt) refl;
      reads =
          unfold as_ref in
          two_parts name opt (λ rest.
            let all = name ++ (opt ++ rest) in
            let total : 0 + length name + 1 ≡ length name + 1 = omega arith in
            unfold decode_sub_filter in
            rw
              (
                dec_field-Ahead _ w.reads (start-Ahead all),
                dec_field-Ahead _ (U8.decode-Reads filter.opt) (past name (start-Ahead all)),
                total,
              )
              refl);
    }

pub decode_sub_filter-Takes : Takes decode_sub_filter
unfolding decode_sub_filter dec_field
decode_sub_filter-Takes stream v m e =
    let (first, e1, d1) = first_step (dec_field decode_filter stream 0) e in
    let (second, e2, d2) = first_step (dec_field U8.decode stream first.1) e1 in
    let pos = field_grows decode_filter stream 0 first.0 first.1 decode_filter-Takes d1 in
    let pos' = field_grows U8.decode stream first.1 second.0 second.1 decode_u8-Takes d2 in
    ground arith

some_filter : (filters : List SubscribeFilter) → validate filters ≡ ok tt → 1 ≤ length filters
unfolding validate
some_filter [] h = cc
some_filter (filter ∷ filters) h = omega arith

-- A packet that can be written and read back: the filters and their options are
-- valid.
pub record IsSubscribe (packet : Subscribe) : Type 0 where
  pub props : IsOptProps packet.properties
  pub filters : All IsSubFilter packet.filters
  pub valid : validate packet.filters ≡ ok tt
  pub short :
      (blob : Blob) (bytes : List ℕ)
      → enc_opt_props encode_sub_props packet.properties ≡ ok blob
      → enc_entries encode_sub_filter packet.filters ≡ ok bytes
      → 2 + length (as_ref blob) + length bytes ≤ VarU32.max_var_u32

module _ (packet : Subscribe) (f : PropField encode_sub_props decode_sub_props packet.properties)
    (filters : List ℕ) (written : Entries decode_sub_filter packet.filters filters) where
  abbrev body : List ℕ
  body = U16.be_bytes packet.packet_id ++ (as_ref f.blob ++ filters)

  decode-behind :
      (h : HeaderField Header.new_subscribe
        (length body)
        (PacketType.subscribe, false, Qos.at_least_once, false))
      (front rest : List ℕ)
      → Reads Header.decode front h.fh
      → validate packet.filters ≡ ok tt
      → decode (front ++ (body ++ rest)) ≡ ok (packet, length front + length body)
  decode-behind h front rest reads valid =
      let id = U16.be_bytes packet.packet_id in
      let bytes = as_ref f.blob in
      let all = front ++ (id ++ (bytes ++ (filters ++ rest))) in
      let at_id = past front (start-Ahead all) in
      let at_props = past id at_id in
      let at_filters = past bytes at_props in
      let end : 0 + length front + h.fh.remaining_len
          ≡ 0 + length front + 2 + length bytes + length filters =
        omega (arith, h.len, length-append bytes filters) in
      let total : 0 + length front + 2 + length bytes + length filters
          ≡ length front + length body =
        omega (arith, length-append bytes filters) in
      unfold decode in
      rw
        (
          append_assoc bytes filters rest,
          dec_field-Ahead _ reads (start-Ahead all),
          h.valid,
          dec_field-Ahead _ (U16.decode-be_bytes packet.packet_id) at_id,
          f.reads all (filters ++ rest) _ at_props,
          end,
          payload_of-Ahead malformed all filters rest _
              (Entries-pos decode_sub_filter packet.filters filters
                (some_filter packet.filters valid) written)
              at_filters,
          entries-Entries decode_sub_filter packet.filters filters written,
          valid,
          total,
        )
        refl

pub subscribe-Framed :
    (packet : Subscribe) → IsSubscribe packet → Framed encode decode PacketType.subscribe packet
subscribe-Framed packet p =
    let f = opt_sub_props_bytes packet.properties p.props in
    let (filters, e, written) =
      enc_entries-Entries IsSubFilter encode_sub_filter decode_sub_filter sub_filter-Written
        decode_sub_filter-Takes packet.filters p.filters in
    let bytes = body packet f filters written in
    packet-Framed Header.new_subscribe PacketType.subscribe false Qos.at_least_once false bytes
      (omega (arith, p.short f.blob filters f.writes e, length-append (as_ref f.blob) filters))
      (constructors-Built PacketType.subscribe false false Qos.at_least_once (length bytes)).3
      (unfold encode U16.encode in
        rw (p.valid, f.writes, as_ref-small_of (U16.be_bytes packet.packet_id), e) refl)
      (λ h front rest reads. decode-behind packet f filters written h front rest reads p.valid)

-- A packet whose properties if any are some, whose filters and options are valid, at least one,
-- and which is
-- not too long is written, and is read back off any stream that begins with what was written,
-- which is all that is taken.
pub subscribe-Written : (packet : Subscribe) → IsSubscribe packet → Written encode decode packet
subscribe-Written packet p = (subscribe-Framed packet p).written
