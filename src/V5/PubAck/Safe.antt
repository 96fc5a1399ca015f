-- ===== src/V5/PubAck/Safe.antt =====
-- The acknowledgements are read without a panic.
use mymq.Base.{ℕ, List, Bool, true, false, Option, ◌==◌, Bool-cases, inl, inr, arith}
use mymq.Error.Ensures.{NoPanic, NoPanic-bind}
use mymq.Error.{ReasonCode}
use mymq.ReasonCode
use mymq.Types.U8
use mymq.Types.U16
use mymq.Types.Safe.{u8-Safe, u16-Safe}
use mymq.V5.PacketType.{PacketType}
use mymq.V5.Frame.Safe.{field-step, props-step}
use mymq.V5.Frame.Received.{Received}
use mymq.V5.AckProps.{decode_ack_props}
use mymq.V5.AckProps.Safe.{decode_ack_props-Safe}
use mymq.V5.PubAck.{PubProperties, check_code, ack_code, rel_code, validate, decode_rest, decode}
use mymq.V5.PubAck.RoundTrip.{IsAck}

code-NoPanic : (val : ℕ) → NoPanic (ReasonCode.try_from val)
unfolding ReasonCode.try_from
code-NoPanic val = ground arith

rest-NoPanic :
    (remaining_len : ℕ) (stream : List ℕ) (n : ℕ) → NoPanic (decode_rest remaining_len stream n)
unfolding decode_rest
rest-NoPanic remaining_len stream n = elim (Bool-cases (remaining_len == 2)) [
  | inl nothing ↦ rw nothing tt
  | inr something ↦ rw something (
      field-step U8.decode stream n u8-Safe _ (λ val m le.
        NoPanic-bind _ (ReasonCode.try_from val) _ (code-NoPanic val) (λ code e.
          elim (Bool-cases (remaining_len == 3)) [
            | inl short ↦ rw short tt
            | inr long ↦
                rw long
                  (props-step decode_ack_props stream m decode_ack_props-Safe _ (λ props r le'. tt))
          ])))
]

check-NoPanic : (b : Bool) → NoPanic (check_code b)
check-NoPanic true = tt
check-NoPanic false = tt

validate-NoPanic :
    (t : PacketType) (id : ℕ) (code : ReasonCode) (props : Option PubProperties)
    → IsAck t
    → NoPanic
        (validate (record { packet_type = t; packet_id = id; code = code; properties = props }))
unfolding validate
validate-NoPanic t id code props (inl e) = rw e (check-NoPanic (ack_code code))
validate-NoPanic t id code props (inr (inl e)) = rw e (check-NoPanic (ack_code code))
validate-NoPanic t id code props (inr (inr (inl e))) = rw e (check-NoPanic (rel_code code))
validate-NoPanic t id code props (inr (inr (inr e))) = rw e (check-NoPanic (rel_code code))

pub decode-NoPanic :
    (t : PacketType) (stream : List ℕ) → IsAck t → Received t stream → NoPanic (decode stream)
unfolding decode
decode-NoPanic t stream ack r =
    rw (r.head, r.valid, r.parts)
      (field-step U16.decode stream r.fh_len u16-Safe _ (λ id n le.
        NoPanic-bind _ (decode_rest r.fh.remaining_len stream n) _
          (rest-NoPanic r.fh.remaining_len stream n)
          (λ (code, properties, end) e.
            NoPanic-bind _ _ _ (validate-NoPanic t id code properties ack) (λ u e'. tt))))
