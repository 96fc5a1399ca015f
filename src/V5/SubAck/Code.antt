-- ===== src/V5/SubAck/Code.antt =====
-- `SubAckReasonCode` of suback.rs, and its number on the wire.
use mymq.Base.{ℕ, ◌≡◌, refl, ◌==◌, if◌then◌else◌}
use mymq.Error.{Result, ok, err, malformed}

pub data SubAckReasonCode : Type 0 where
  qos0 qos1 qos2 unspecified_error implementation_error not_authorized : SubAckReasonCode
  invalid_topic_filter packet_id_inuse quota_exceeded : SubAckReasonCode
  shared_subscriptions_not_supported subscription_id_not_supported : SubAckReasonCode
  wildcard_subscriptions_not_supported : SubAckReasonCode

unfoldable pub to_u8 : SubAckReasonCode → ℕ
to_u8 qos0 = 0x0
to_u8 qos1 = 0x1
to_u8 qos2 = 0x2
to_u8 unspecified_error = 0x80
to_u8 implementation_error = 0x83
to_u8 not_authorized = 0x87
to_u8 invalid_topic_filter = 0x8f
to_u8 packet_id_inuse = 0x91
to_u8 quota_exceeded = 0x97
to_u8 shared_subscriptions_not_supported = 0x9e
to_u8 subscription_id_not_supported = 0xa1
to_u8 wildcard_subscriptions_not_supported = 0xa2

unfoldable pub try_from : ℕ → Result SubAckReasonCode
try_from val =
    if val == 0x0
    then ok qos0
    else if val == 0x1
    then ok qos1
    else if val == 0x2
    then ok qos2
    else if val == 0x80
    then ok unspecified_error
    else if val == 0x83
    then ok implementation_error
    else if val == 0x87
    then ok not_authorized
    else if val == 0x8f
    then ok invalid_topic_filter
    else if val == 0x91
    then ok packet_id_inuse
    else if val == 0x97
    then ok quota_exceeded
    else if val == 0x9e
    then ok shared_subscriptions_not_supported
    else if val == 0xa1
    then ok subscription_id_not_supported
    else if val == 0xa2
    then ok wildcard_subscriptions_not_supported
    else err malformed

pub try_from-to_u8 : (code : SubAckReasonCode) → try_from (to_u8 code) ≡ ok code
unfolding try_from to_u8
try_from-to_u8 qos0 = refl
try_from-to_u8 qos1 = refl
try_from-to_u8 qos2 = refl
try_from-to_u8 unspecified_error = refl
try_from-to_u8 implementation_error = refl
try_from-to_u8 not_authorized = refl
try_from-to_u8 invalid_topic_filter = refl
try_from-to_u8 packet_id_inuse = refl
try_from-to_u8 quota_exceeded = refl
try_from-to_u8 shared_subscriptions_not_supported = refl
try_from-to_u8 subscription_id_not_supported = refl
try_from-to_u8 wildcard_subscriptions_not_supported = refl
