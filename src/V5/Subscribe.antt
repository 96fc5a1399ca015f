-- ===== src/V5/Subscribe.antt =====
-- sub.rs: SUBSCRIBE, a list of topic filters with options.
pub mod Opt
pub mod Props
pub mod RoundTrip
pub mod Safe
use mymq.Base.{ℕ, ◌+◌, List, [], ◌∷◌, ◌++◌, Option}
use mymq.Error.{Result, ok, err, malformed, protocol, ◌>>=◌, ◌>>◌}
use mymq.Types.Blob.{Blob, large, as_ref, Decoder, dec_field}
use mymq.Types.U8
use mymq.Types.U16
use mymq.Types.Topic.{TopicFilter, decode_filter, encode_filter}
use mymq.V5.Header
use mymq.V5.Frame.{dec_props, enc_opt_props, close_packet}
use mymq.V5.Payload.{payload_of, entries, enc_entries}
use mymq.V5.Subscribe.Opt.{check_opt}
use mymq.V5.Subscribe.Props.{SubscribeProperties, decode_sub_props, encode_sub_props}

pub record SubscribeFilter : Type 0 where
  pub topic_filter : TopicFilter
  pub opt : ℕ

unfoldable pub decode_sub_filter : Decoder SubscribeFilter
unfolding dec_field decode_filter U8.decode
decode_sub_filter stream = do
  (topic_filter, n) ← dec_field decode_filter stream 0
  (opt, m) ← dec_field U8.decode stream n
  let filter : SubscribeFilter = record { topic_filter = topic_filter; opt = opt }
  ok (filter, m)

unfoldable pub encode_sub_filter : SubscribeFilter → Result Blob
unfolding encode_filter U8.encode as_ref
encode_sub_filter filter = do
  filter_blob ← encode_filter filter.topic_filter
  opt_blob ← U8.encode filter.opt
  ok (large (as_ref filter_blob ++ as_ref opt_blob))

pub record Subscribe : Type 0 where
  pub packet_id : ℕ
  pub properties : Option SubscribeProperties
  pub filters : List SubscribeFilter

-- The loop of `validate`.
unfoldable pub check_opts : List SubscribeFilter → Result (Unit {0})
unfolding check_opt
check_opts [] = ok tt
check_opts (filter ∷ filters) = check_opt filter.opt >> check_opts filters

unfoldable pub validate : List SubscribeFilter → Result (Unit {0})
unfolding check_opts
validate [] = err protocol
validate (filter ∷ filters) = check_opts (filter ∷ filters)

unfoldable pub decode : Decoder Subscribe
unfolding dec_field Header.decode Header.validate U16.decode dec_props decode_sub_props
decode stream = do
  (fh, fh_len) ← dec_field Header.decode stream 0
  _ ← Header.validate fh
  (packet_id, n) ← dec_field U16.decode stream fh_len
  (properties, r) ← dec_props decode_sub_props stream n
  (payload, m) ← payload_of malformed stream r (fh_len + fh.remaining_len)
  filters ← entries decode_sub_filter payload
  let packet : Subscribe = record {
    packet_id = packet_id;
    properties = properties;
    filters = filters;
  }
  validate filters >> ok (packet, m)

unfoldable pub encode : Subscribe → Result Blob
unfolding U16.encode enc_opt_props encode_sub_props close_packet Header.new_subscribe as_ref
encode packet = do
  _ ← validate packet.filters
  id_blob ← U16.encode packet.packet_id
  props_blob ← enc_opt_props encode_sub_props packet.properties
  filter_bytes ← enc_entries encode_sub_filter packet.filters
  close_packet Header.new_subscribe (as_ref id_blob ++ (as_ref props_blob ++ filter_bytes))
