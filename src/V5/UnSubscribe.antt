-- ===== src/V5/UnSubscribe.antt =====
-- unsub.rs: UNSUBSCRIBE, a list of topic filters.
pub mod Props
pub mod RoundTrip
pub mod Safe
use mymq.Base.{ℕ, ◌+◌, List, [], ◌∷◌, ◌++◌, Option}
use mymq.Error.{Result, ok, err, protocol, ◌>>=◌, ◌>>◌}
use mymq.Types.Blob.{Blob, as_ref, Decoder, dec_field}
use mymq.Types.U16
use mymq.Types.Topic.{TopicFilter, decode_filter, encode_filter}
use mymq.V5.Header
use mymq.V5.Frame.{dec_props, enc_opt_props, close_packet}
use mymq.V5.Payload.{payload_of, entries, enc_entries}
use mymq.V5.UnSubscribe.Props.{UnSubscribeProperties, decode_unsub_props, encode_unsub_props}

pub record UnSubscribe : Type 0 where
  pub packet_id : ℕ
  pub properties : Option UnSubscribeProperties
  pub filters : List TopicFilter

-- `validate`: there is a filter.
unfoldable pub check_filters : {A : Type 0} → List A → Result (Unit {0})
check_filters [] = err protocol
check_filters (filter ∷ filters) = ok tt

unfoldable pub decode : Decoder UnSubscribe
unfolding dec_field Header.decode Header.validate U16.decode dec_props decode_unsub_props
    decode_filter check_filters
decode stream = do
  (fh, fh_len) ← dec_field Header.decode stream 0
  _ ← Header.validate fh
  (packet_id, n) ← dec_field U16.decode stream fh_len
  (properties, r) ← dec_props decode_unsub_props stream n
  (payload, m) ← payload_of protocol stream r (fh_len + fh.remaining_len)
  filters ← entries decode_filter payload
  let packet : UnSubscribe = record {
    packet_id = packet_id;
    properties = properties;
    filters = filters;
  }
  check_filters filters >> ok (packet, m)

unfoldable pub encode : UnSubscribe → Result Blob
unfolding U16.encode enc_opt_props encode_unsub_props encode_filter close_packet
    Header.new_unsubscribe as_ref
encode packet = do
  id_blob ← U16.encode packet.packet_id
  props_blob ← enc_opt_props encode_unsub_props packet.properties
  filter_bytes ← enc_entries encode_filter packet.filters
  close_packet Header.new_unsubscribe (as_ref id_blob ++ (as_ref props_blob ++ filter_bytes))
