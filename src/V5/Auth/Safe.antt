-- ===== src/V5/Auth/Safe.antt =====
-- AUTH is read without a panic.
use mymq.Base.{ℕ, List, ◌==◌, Bool-cases, inl, inr, arith}
use mymq.Error.Ensures.{NoPanic, NoPanic-bind}
use mymq.Types.U8
use mymq.Types.Safe.{u8-Safe}
use mymq.V5.PacketType
use mymq.V5.Frame.Safe.{field-step, props-step}
use mymq.V5.Frame.Received.{Received}
use mymq.V5.Auth.{decode_rest, decode}
use mymq.V5.Auth.Code
use mymq.V5.Auth.Props.{decode_auth_props}
use mymq.V5.Auth.Props.Safe.{decode_auth_props-Safe}

code-NoPanic : (val : ℕ) → NoPanic (Code.try_from val)
unfolding Code.try_from
code-NoPanic val = ground arith

rest-NoPanic :
    (remaining_len : ℕ) (stream : List ℕ) (n : ℕ) → NoPanic (decode_rest remaining_len stream n)
unfolding decode_rest
rest-NoPanic remaining_len stream n = elim (Bool-cases (remaining_len == 0)) [
  | inl nothing ↦ rw nothing tt
  | inr something ↦ rw something (
      field-step U8.decode stream n u8-Safe _ (λ val m le.
        NoPanic-bind _ (Code.try_from val) _ (code-NoPanic val) (λ code e.
          props-step decode_auth_props stream m decode_auth_props-Safe _ (λ props r le'. tt))))
]

pub decode-NoPanic : (stream : List ℕ) → Received PacketType.auth stream → NoPanic (decode stream)
unfolding decode
decode-NoPanic stream r = rw (r.head, r.valid) (rest-NoPanic r.fh.remaining_len stream r.fh_len)
