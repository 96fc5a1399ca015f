-- ===== src/V5/UnsubAck/Code.antt =====
-- `UnsubAckReasonCode` of unsuback.rs, and its number on the wire.
use mymq.Base.{ℕ, ◌≡◌, refl, ◌==◌, if◌then◌else◌}
use mymq.Error.{Result, ok, err, malformed}

pub data UnsubAckReasonCode : Type 0 where
  qos0 no_subscription_existed unspecified_error implementation_error : UnsubAckReasonCode
  not_authorized invalid_topic_filter packet_id_inuse : UnsubAckReasonCode

unfoldable pub to_u8 : UnsubAckReasonCode → ℕ
to_u8 qos0 = 0x0
to_u8 no_subscription_existed = 0x11
to_u8 unspecified_error = 0x80
to_u8 implementation_error = 0x83
to_u8 not_authorized = 0x87
to_u8 invalid_topic_filter = 0x8f
to_u8 packet_id_inuse = 0x91

unfoldable pub try_from : ℕ → Result UnsubAckReasonCode
try_from val =
    if val == 0x0
    then ok qos0
    else if val == 0x11
    then ok no_subscription_existed
    else if val == 0x80
    then ok unspecified_error
    else if val == 0x83
    then ok implementation_error
    else if val == 0x87
    then ok not_authorized
    else if val == 0x8f
    then ok invalid_topic_filter
    else if val == 0x91
    then ok packet_id_inuse
    else err malformed

pub try_from-to_u8 : (code : UnsubAckReasonCode) → try_from (to_u8 code) ≡ ok code
unfolding try_from to_u8
try_from-to_u8 qos0 = refl
try_from-to_u8 no_subscription_existed = refl
try_from-to_u8 unspecified_error = refl
try_from-to_u8 implementation_error = refl
try_from-to_u8 not_authorized = refl
try_from-to_u8 invalid_topic_filter = refl
try_from-to_u8 packet_id_inuse = refl
