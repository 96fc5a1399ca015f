-- ===== src/V5/Subscribe/Safe.antt =====
-- SUBSCRIBE is read without a panic.
use mymq.Base.{ℕ, ◌+◌, List, [], ◌∷◌, arith}
use mymq.Error.{malformed}
use mymq.Error.Ensures.{NoPanic, NoPanic-bind}
use mymq.Types.U8
use mymq.Types.U16
use mymq.Types.Topic.{decode_filter}
use mymq.Types.Safe.{Safe, u8-Safe, u16-Safe, filter-Safe}
use mymq.V5.Qos
use mymq.V5.PacketType
use mymq.V5.Frame.Safe.{field-step, field-Safe, props-step}
use mymq.V5.Frame.Received.{Received}
use mymq.V5.Payload.{payload_of, entries}
use mymq.V5.Payload.Safe.{payload_of-NoPanic, entries-NoPanic}
use mymq.V5.Subscribe.{SubscribeFilter, decode_sub_filter, check_opts, validate, decode}
use mymq.V5.Subscribe.Opt.{check_opt}
use mymq.V5.Subscribe.RoundTrip.{decode_sub_filter-Takes}
use mymq.V5.Subscribe.Props.{decode_sub_props}
use mymq.V5.Subscribe.Props.Safe.{decode_sub_props-Safe}

filter_opt-Safe : Safe decode_sub_filter
unfolding decode_sub_filter
filter_opt-Safe stream =
    field-Safe decode_filter stream 0 filter-Safe _
      (λ topic_filter n le. field-Safe U8.decode stream n u8-Safe _ (λ opt m le'. le'))

opt-NoPanic : (opt : ℕ) → NoPanic (check_opt opt)
unfolding check_opt Qos.try_from
opt-NoPanic opt = ground arith

opts-NoPanic : (filters : List SubscribeFilter) → NoPanic (check_opts filters)
unfolding check_opts
opts-NoPanic [] = tt
opts-NoPanic (filter ∷ filters) =
    NoPanic-bind _ (check_opt filter.opt) _ (opt-NoPanic filter.opt) (λ u e. opts-NoPanic filters)

validate-NoPanic : (filters : List SubscribeFilter) → NoPanic (validate filters)
unfolding validate
validate-NoPanic [] = tt
validate-NoPanic (filter ∷ filters) = opts-NoPanic (filter ∷ filters)

pub decode-NoPanic :
    (stream : List ℕ) → Received PacketType.subscribe stream → NoPanic (decode stream)
unfolding decode
decode-NoPanic stream r =
    rw (r.head, r.valid)
      (field-step U16.decode stream r.fh_len u16-Safe _ (λ id n le.
        props-step decode_sub_props stream n decode_sub_props-Safe _ (λ props m le'.
          NoPanic-bind _ (payload_of malformed stream m (r.fh_len + r.fh.remaining_len)) _
            (payload_of-NoPanic malformed stream m (r.fh_len + r.fh.remaining_len) le' r.total)
            (λ (payload, end) e.
              NoPanic-bind _ (entries decode_sub_filter payload) _
                (entries-NoPanic decode_sub_filter filter_opt-Safe decode_sub_filter-Takes payload)
                (λ filters e'.
                  NoPanic-bind _ (validate filters) _ (validate-NoPanic filters) (λ u e''. tt))))))
