-- ===== src/V5/ConnAck/Safe.antt =====
-- CONNACK is read without a panic.
use mymq.Base.{ℕ, List, arith}
use mymq.Error.Ensures.{NoPanic, NoPanic-bind}
use mymq.Types.U8
use mymq.Types.Safe.{Safe, u8-Safe}
use mymq.V5.PacketType
use mymq.V5.Frame.Safe.{field-step, props-step, field-Safe}
use mymq.V5.Frame.Received.{Received}
use mymq.V5.ConnAck.{unwrap_flags, decode_flags, decode}
use mymq.V5.ConnAck.Code
use mymq.V5.ConnAck.Props.{decode_connack_props}
use mymq.V5.ConnAck.Props.Safe.{decode_connack_props-Safe}

flags-NoPanic : (flags : ℕ) → NoPanic (unwrap_flags flags)
unfolding unwrap_flags
flags-NoPanic flags = ground arith

flags-Safe : Safe decode_flags
unfolding decode_flags
flags-Safe stream =
    field-Safe U8.decode stream 0 u8-Safe _
      (λ flags n le. NoPanic-bind _ (unwrap_flags flags) _ (flags-NoPanic flags) (λ u e. le))

code-NoPanic : (val : ℕ) → NoPanic (Code.try_from val)
unfolding Code.try_from
code-NoPanic val = ground arith

pub decode-NoPanic :
    (stream : List ℕ) → Received PacketType.conn_ack stream → NoPanic (decode stream)
unfolding decode
decode-NoPanic stream r =
    rw (r.head, r.valid)
      (field-step decode_flags stream r.fh_len flags-Safe _ (λ flags n le.
        field-step U8.decode stream n u8-Safe _ (λ val m le'.
          NoPanic-bind _ (Code.try_from val) _ (code-NoPanic val) (λ code e.
            props-step decode_connack_props stream m decode_connack_props-Safe _
              (λ props k le''. tt)))))
