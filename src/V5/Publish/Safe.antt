-- ===== src/V5/Publish/Safe.antt =====
-- PUBLISH is read without a panic.
use mymq.Base.{ℕ, ◌+◌, ◌≤◌, List, length, ◌≡◌, arith}
use mymq.Error.Ensures.{NoPanic, NoPanic-bind}
use mymq.Types.U16
use mymq.Types.Topic.{decode_name}
use mymq.Types.Safe.{u16-Safe, name-Safe}
use mymq.V5.PacketType
use mymq.V5.Frame.Safe.{field-step, field_if-Ensures, props-step}
use mymq.V5.Frame.Received.{Received}
use mymq.V5.Payload.{slice}
use mymq.V5.Publish.{Publish, has_id, rest_of, check_qos, check_text, validate, decode}
use mymq.V5.Publish.Props.{decode_publish_props}
use mymq.V5.Publish.Props.Safe.{decode_publish_props-Safe}

rest-NoPanic :
    (stream : List ℕ) (n m : ℕ)
    → n ≤ length stream
    → m ≡ length stream
    → NoPanic (rest_of stream n m)
unfolding rest_of slice
rest-NoPanic stream n m h total = ground arith

validate-NoPanic : (packet : Publish) → NoPanic (validate packet)
unfolding validate check_qos check_text
validate-NoPanic packet = ground arith

pub decode-NoPanic :
    (stream : List ℕ) → Received PacketType.publish stream → NoPanic (decode stream)
unfolding decode
decode-NoPanic stream r =
    rw (r.head, r.valid, r.parts)
      (field-step decode_name stream r.fh_len name-Safe _ (λ name n le.
        field_if-Ensures U16.decode stream n u16-Safe (has_id r.qos) _ _ le (λ id m le'.
          props-step decode_publish_props stream m decode_publish_props-Safe _ (λ props k le''.
            NoPanic-bind _ (rest_of stream k (r.fh_len + r.fh.remaining_len)) _
              (rest-NoPanic stream k (r.fh_len + r.fh.remaining_len) le'' r.total)
              (λ (payload, end) e.
                NoPanic-bind _ (validate _) _ (validate-NoPanic _) (λ u e'. tt))))))
