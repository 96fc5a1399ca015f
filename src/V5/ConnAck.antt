-- ===== src/V5/ConnAck.antt =====
-- connack.rs: CONNACK, the answer to CONNECT.
pub mod Code
pub mod Props
pub mod RoundTrip
pub mod Safe
use mymq.Base.{ℕ, Bool, List, [], ◌∷◌, ◌++◌, Option, none, ltb, bit_and, bit_or, if◌then◌else◌}
use mymq.Error.{Result, ok, err, malformed, ◌>>=◌, ◌>>◌}
use mymq.Types.Blob.{Blob, as_ref, Decoder, dec_field}
use mymq.Types.U8
use mymq.V5.PacketType.{PacketType}
use mymq.V5.Header
use mymq.V5.Frame.{dec_props, enc_opt_props, close_packet}
use mymq.V5.ConnAck.Code
use mymq.V5.ConnAck.Code.{ConnackReasonCode}
use mymq.V5.ConnAck.Props.{ConnAckProperties, decode_connack_props, encode_connack_props}

-- `ConnackFlags`, a byte.
abbrev pub session_present : ℕ
session_present = 1

-- `ConnackFlags::new`, which joins the flags of a list.
unfoldable pub new_flags : List ℕ → ℕ → ℕ
new_flags [] acc = acc
new_flags (flag ∷ flags) acc = new_flags flags (bit_or acc flag)

-- `ConnackFlags::unwrap`: whether a session is present.
unfoldable pub unwrap_flags : ℕ → Result Bool
unwrap_flags flags =
    if ltb 0 (bit_and flags 0xfe) then err malformed else ok (ltb 0 (bit_and flags session_present))

unfoldable pub decode_flags : Decoder ℕ
unfolding dec_field U8.decode unwrap_flags
decode_flags stream = do
  (flags, n) ← dec_field U8.decode stream 0
  _ ← unwrap_flags flags
  ok (flags, n)

pub record ConnAck : Type 0 where
  pub flags : ℕ
  pub code : ConnackReasonCode
  pub properties : Option ConnAckProperties

unfoldable pub new_success : Option ConnAckProperties → ConnAck
new_success props = record { flags = 0; code = Code.success; properties = props }

unfoldable pub from_reason_code : ConnackReasonCode → ConnAck
from_reason_code code = record { flags = 0; code = code; properties = none }

unfoldable pub set_session_present : ConnAck → ConnAck
set_session_present packet = record packet { flags = bit_or packet.flags session_present }

unfoldable pub decode : Decoder ConnAck
unfolding dec_field Header.decode Header.validate decode_flags U8.decode Code.try_from dec_props
    decode_connack_props
decode stream = do
  (fh, n) ← dec_field Header.decode stream 0
  _ ← Header.validate fh
  (flags, m) ← dec_field decode_flags stream n
  (val, k) ← dec_field U8.decode stream m
  code ← Code.try_from val
  (properties, r) ← dec_props decode_connack_props stream k
  let packet : ConnAck = record { flags = flags; code = code; properties = properties }
  ok (packet, r)

unfoldable pub encode : ConnAck → Result Blob
unfolding U8.encode Code.to_u8 enc_opt_props encode_connack_props close_packet Header.new as_ref
encode packet = do
  flags_blob ← U8.encode packet.flags
  code_blob ← U8.encode (Code.to_u8 packet.code)
  props_blob ← enc_opt_props encode_connack_props packet.properties
  close_packet (Header.new PacketType.conn_ack)
      (as_ref flags_blob ++ (as_ref code_blob ++ as_ref props_blob))
