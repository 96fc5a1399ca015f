-- ===== src/V5/UnSubscribe/RoundTrip.antt =====
-- UNSUBSCRIBE is read back as it was written.
use mymq.Base.{
  ℕ, ◌+◌, ◌≤◌, false, List, [], ◌∷◌, ◌++◌, length, ◌≡◌, refl, arith, append_assoc, length-append,
  All,
}
use mymq.Error.{ok, protocol}
use mymq.Types.Blob.{Blob, as_ref, as_ref-small_of, Reads, dec_field-Ahead, past, start-Ahead}
use mymq.Types.U16
use mymq.Types.VarU32
use mymq.Types.Text.RoundTrip.{IsMqttText}
use mymq.Types.Topic.{TopicFilter, validate_filter, decode_filter, encode_filter}
use mymq.Types.Written.{Written, filter-Written}
use mymq.V5.Qos.{Qos}
use mymq.V5.PacketType.{PacketType}
use mymq.V5.Header
use mymq.V5.Header.Flags.{constructors-Built}
use mymq.V5.Frame.{enc_opt_props}
use mymq.V5.Frame.Whole.{PropField, HeaderField, packet-Framed, Framed}
use mymq.V5.Payload.{enc_entries}
use mymq.V5.Payload.Laws.{
  payload_of-Ahead, Entries, entries-Entries, Entries-pos, enc_entries-Entries, decode_filter-Takes,
}
use mymq.V5.UnSubscribe.{UnSubscribe, check_filters, decode, encode}
use mymq.V5.UnSubscribe.Props.{decode_unsub_props, encode_unsub_props}
use mymq.V5.UnSubscribe.Props.Laws.{IsOptProps, opt_unsub_props_bytes}

abbrev pub IsFilter : TopicFilter → Type 0
IsFilter filter = IsMqttText filter × (validate_filter filter ≡ ok tt)

-- A packet that can be written and read back: it has a filter.
pub record IsUnSubscribe (packet : UnSubscribe) : Type 0 where
  pub props : IsOptProps packet.properties
  pub filters : All IsFilter packet.filters
  pub some_there : 1 ≤ length packet.filters
  pub short :
      (blob : Blob) (bytes : List ℕ)
      → enc_opt_props encode_unsub_props packet.properties ≡ ok blob
      → enc_entries encode_filter packet.filters ≡ ok bytes
      → 2 + length (as_ref blob) + length bytes ≤ VarU32.max_var_u32

check_some : {A : Type 0} (filters : List A) → 1 ≤ length filters → check_filters filters ≡ ok tt
unfolding check_filters
check_some [] h = absurd (omega arith)
check_some (filter ∷ filters) h = refl

module _ (packet : UnSubscribe)
    (f : PropField encode_unsub_props decode_unsub_props packet.properties) (filters : List ℕ)
    (written : Entries decode_filter packet.filters filters) where
  abbrev body : List ℕ
  body = U16.be_bytes packet.packet_id ++ (as_ref f.blob ++ filters)

  decode-behind :
      (h : HeaderField Header.new_unsubscribe
        (length body)
        (PacketType.un_subscribe, false, Qos.at_least_once, false))
      (front rest : List ℕ)
      → Reads Header.decode front h.fh
      → 1 ≤ length packet.filters
      → decode (front ++ (body ++ rest)) ≡ ok (packet, length front + length body)
  decode-behind h front rest reads pos =
      let id = U16.be_bytes packet.packet_id in
      let bytes = as_ref f.blob in
      let all = front ++ (id ++ (bytes ++ (filters ++ rest))) in
      let at_id = past front (start-Ahead all) in
      let at_props = past id at_id in
      let at_filters = past bytes at_props in
      let end : 0 + length front + h.fh.remaining_len
          ≡ 0 + length front + 2 + length bytes + length filters =
        omega (arith, h.len, length-append bytes filters) in
      let total : 0 + length front + 2 + length bytes + length filters
          ≡ length front + length body =
        omega (arith, length-append bytes filters) in
      unfold decode in
      rw
        (
          append_assoc bytes filters rest,
          dec_field-Ahead _ reads (start-Ahead all),
          h.valid,
          dec_field-Ahead _ (U16.decode-be_bytes packet.packet_id) at_id,
          f.reads all (filters ++ rest) _ at_props,
          end,
          payload_of-Ahead protocol all filters rest _
              (Entries-pos decode_filter packet.filters filters pos written) at_filters,
          entries-Entries decode_filter packet.filters filters written,
          check_some packet.filters pos,
          total,
        )
        refl

pub unsubscribe-Framed :
    (packet : UnSubscribe)
    → IsUnSubscribe packet
    → Framed encode decode PacketType.un_subscribe packet
unsubscribe-Framed packet p =
    let f = opt_unsub_props_bytes packet.properties p.props in
    let (filters, e, written) =
      enc_entries-Entries IsFilter encode_filter decode_filter (λ v h. filter-Written v h.0 h.1)
        decode_filter-Takes packet.filters p.filters in
    let bytes = body packet f filters written in
    packet-Framed Header.new_unsubscribe PacketType.un_subscribe false Qos.at_least_once false bytes
      (omega (arith, p.short f.blob filters f.writes e, length-append (as_ref f.blob) filters))
      (constructors-Built PacketType.un_subscribe false false Qos.at_least_once (length bytes)).4
      (unfold encode U16.encode in
        rw (f.writes, as_ref-small_of (U16.be_bytes packet.packet_id), e) refl)
      (λ h front rest reads. decode-behind packet f filters written h front rest reads p.some_there)

-- A packet whose properties if any are some, which has a filter and valid ones only, and which is
-- not too long is written, and is read back off any stream that begins with what was written,
-- which is all that is taken.
pub unsubscribe-Written :
    (packet : UnSubscribe) → IsUnSubscribe packet → Written encode decode packet
unsubscribe-Written packet p = (unsubscribe-Framed packet p).written
