-- ===== src/V5/CodesAck/Safe.antt =====
-- SUBACK and UNSUBACK are read without a panic.
use mymq.Base.{ℕ, ◌+◌, List}
use mymq.Error.{Result, malformed}
use mymq.Error.Ensures.{NoPanic, NoPanic-bind}
use mymq.Types.U16
use mymq.Types.Safe.{u16-Safe}
use mymq.V5.PacketType.{PacketType}
use mymq.V5.Frame.Safe.{field-step, props-step}
use mymq.V5.Frame.Received.{Received}
use mymq.V5.Payload.{payload_of, try_all}
use mymq.V5.Payload.Safe.{payload_of-NoPanic, try_all-NoPanic}
use mymq.V5.AckProps.{decode_ack_props}
use mymq.V5.AckProps.Safe.{decode_ack_props-Safe}
use mymq.V5.CodesAck.{decode}

pub decode-NoPanic :
    {C : Type 0} (try_from : ℕ → Result C) (t : PacketType) (stream : List ℕ)
    → ((val : ℕ) → NoPanic (try_from val))
    → Received t stream
    → NoPanic (decode try_from stream)
unfolding decode
decode-NoPanic try_from t stream safe r =
    rw (r.head, r.valid)
      (field-step U16.decode stream r.fh_len u16-Safe _ (λ id n le.
        props-step decode_ack_props stream n decode_ack_props-Safe _ (λ props m le'.
          NoPanic-bind _ (payload_of malformed stream m (r.fh_len + r.fh.remaining_len)) _
            (payload_of-NoPanic malformed stream m (r.fh_len + r.fh.remaining_len) le' r.total)
            (λ (payload, end) e.
              NoPanic-bind _ (try_all try_from payload) _ (try_all-NoPanic try_from safe payload)
                (λ codes e'. tt)))))
