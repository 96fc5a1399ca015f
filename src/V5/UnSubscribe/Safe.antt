-- ===== src/V5/UnSubscribe/Safe.antt =====
-- UNSUBSCRIBE is read without a panic.
use mymq.Base.{ℕ, ◌+◌, List, arith}
use mymq.Error.{protocol}
use mymq.Error.Ensures.{NoPanic, NoPanic-bind}
use mymq.Types.U16
use mymq.Types.Topic.{TopicFilter, decode_filter}
use mymq.Types.Safe.{u16-Safe, filter-Safe}
use mymq.V5.PacketType
use mymq.V5.Frame.Safe.{field-step, props-step}
use mymq.V5.Frame.Received.{Received}
use mymq.V5.Payload.{payload_of, entries}
use mymq.V5.Payload.Laws.{decode_filter-Takes}
use mymq.V5.Payload.Safe.{payload_of-NoPanic, entries-NoPanic}
use mymq.V5.UnSubscribe.{check_filters, decode}
use mymq.V5.UnSubscribe.Props.{decode_unsub_props}
use mymq.V5.UnSubscribe.Props.Safe.{decode_unsub_props-Safe}

check-NoPanic : (filters : List TopicFilter) → NoPanic (check_filters filters)
unfolding check_filters
check-NoPanic filters = ground arith

pub decode-NoPanic :
    (stream : List ℕ) → Received PacketType.un_subscribe stream → NoPanic (decode stream)
unfolding decode
decode-NoPanic stream r =
    rw (r.head, r.valid)
      (field-step U16.decode stream r.fh_len u16-Safe _ (λ id n le.
        props-step decode_unsub_props stream n decode_unsub_props-Safe _ (λ props m le'.
          NoPanic-bind _ (payload_of protocol stream m (r.fh_len + r.fh.remaining_len)) _
            (payload_of-NoPanic protocol stream m (r.fh_len + r.fh.remaining_len) le' r.total)
            (λ (payload, end) e.
              NoPanic-bind _ (entries decode_filter payload) _
                (entries-NoPanic decode_filter filter-Safe decode_filter-Takes payload)
                (λ filters e'.
                  NoPanic-bind _ (check_filters filters) _ (check-NoPanic filters)
                    (λ u e''. tt))))))
