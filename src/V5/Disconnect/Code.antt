-- ===== src/V5/Disconnect/Code.antt =====
-- `DisconnReasonCode` of disconnect.rs, and its number on the wire.
use mymq.Base.{ℕ, ◌≡◌, refl, ◌==◌, if◌then◌else◌}
use mymq.Error.{Result, ok, err, malformed}

pub data DisconnReasonCode : Type 0 where
  normal_disconnect diconnect_will_message unspecified_error : DisconnReasonCode
  malformed_packet protocol_error implementation_error not_authorized : DisconnReasonCode
  server_busy server_shutdown keep_alive_timeout session_taken_over : DisconnReasonCode
  invalid_topic_filter topic_name_invalid exceeded_receive_maximum : DisconnReasonCode
  topic_alias_invalid packet_too_large exceed_message_rate quota_exceeded : DisconnReasonCode
  admin_action payload_format_invalid retain_not_supported qos_not_supported : DisconnReasonCode
  use_another_server server_moved unsupported_shared_subscription : DisconnReasonCode
  exceed_connection_rate exceed_maximum_connect_time : DisconnReasonCode
  subscription_id_not_supported wildcard_subscriptions_not_supported : DisconnReasonCode

unfoldable pub to_u8 : DisconnReasonCode → ℕ
to_u8 normal_disconnect = 0x00
to_u8 diconnect_will_message = 0x04
to_u8 unspecified_error = 0x80
to_u8 malformed_packet = 0x81
to_u8 protocol_error = 0x82
to_u8 implementation_error = 0x83
to_u8 not_authorized = 0x87
to_u8 server_busy = 0x89
to_u8 server_shutdown = 0x8b
to_u8 keep_alive_timeout = 0x8d
to_u8 session_taken_over = 0x8e
to_u8 invalid_topic_filter = 0x8f
to_u8 topic_name_invalid = 0x90
to_u8 exceeded_receive_maximum = 0x93
to_u8 topic_alias_invalid = 0x94
to_u8 packet_too_large = 0x95
to_u8 exceed_message_rate = 0x96
to_u8 quota_exceeded = 0x97
to_u8 admin_action = 0x98
to_u8 payload_format_invalid = 0x99
to_u8 retain_not_supported = 0x9a
to_u8 qos_not_supported = 0x9b
to_u8 use_another_server = 0x9c
to_u8 server_moved = 0x9d
to_u8 unsupported_shared_subscription = 0x9e
to_u8 exceed_connection_rate = 0x9f
to_u8 exceed_maximum_connect_time = 0xa0
to_u8 subscription_id_not_supported = 0xa1
to_u8 wildcard_subscriptions_not_supported = 0xa2

unfoldable pub try_from : ℕ → Result DisconnReasonCode
try_from val =
    if val == 0x00
    then ok normal_disconnect
    else if val == 0x04
    then ok diconnect_will_message
    else if val == 0x80
    then ok unspecified_error
    else if val == 0x81
    then ok malformed_packet
    else if val == 0x82
    then ok protocol_error
    else if val == 0x83
    then ok implementation_error
    else if val == 0x87
    then ok not_authorized
    else if val == 0x89
    then ok server_busy
    else if val == 0x8b
    then ok server_shutdown
    else if val == 0x8d
    then ok keep_alive_timeout
    else if val == 0x8e
    then ok session_taken_over
    else if val == 0x8f
    then ok invalid_topic_filter
    else if val == 0x90
    then ok topic_name_invalid
    else if val == 0x93
    then ok exceeded_receive_maximum
    else if val == 0x94
    then ok topic_alias_invalid
    else if val == 0x95
    then ok packet_too_large
    else if val == 0x96
    then ok exceed_message_rate
    else if val == 0x97
    then ok quota_exceeded
    else if val == 0x98
    then ok admin_action
    else if val == 0x99
    then ok payload_format_invalid
    else if val == 0x9a
    then ok retain_not_supported
    else if val == 0x9b
    then ok qos_not_supported
    else if val == 0x9c
    then ok use_another_server
    else if val == 0x9d
    then ok server_moved
    else if val == 0x9e
    then ok unsupported_shared_subscription
    else if val == 0x9f
    then ok exceed_connection_rate
    else if val == 0xa0
    then ok exceed_maximum_connect_time
    else if val == 0xa1
    then ok subscription_id_not_supported
    else if val == 0xa2
    then ok wildcard_subscriptions_not_supported
    else err malformed

pub try_from-to_u8 : (code : DisconnReasonCode) → try_from (to_u8 code) ≡ ok code
unfolding try_from to_u8
try_from-to_u8 normal_disconnect = refl
try_from-to_u8 diconnect_will_message = refl
try_from-to_u8 unspecified_error = refl
try_from-to_u8 malformed_packet = refl
try_from-to_u8 protocol_error = refl
try_from-to_u8 implementation_error = refl
try_from-to_u8 not_authorized = refl
try_from-to_u8 server_busy = refl
try_from-to_u8 server_shutdown = refl
try_from-to_u8 keep_alive_timeout = refl
try_from-to_u8 session_taken_over = refl
try_from-to_u8 invalid_topic_filter = refl
try_from-to_u8 topic_name_invalid = refl
try_from-to_u8 exceeded_receive_maximum = refl
try_from-to_u8 topic_alias_invalid = refl
try_from-to_u8 packet_too_large = refl
try_from-to_u8 exceed_message_rate = refl
try_from-to_u8 quota_exceeded = refl
try_from-to_u8 admin_action = refl
try_from-to_u8 payload_format_invalid = refl
try_from-to_u8 retain_not_supported = refl
try_from-to_u8 qos_not_supported = refl
try_from-to_u8 use_another_server = refl
try_from-to_u8 server_moved = refl
try_from-to_u8 unsupported_shared_subscription = refl
try_from-to_u8 exceed_connection_rate = refl
try_from-to_u8 exceed_maximum_connect_time = refl
try_from-to_u8 subscription_id_not_supported = refl
try_from-to_u8 wildcard_subscriptions_not_supported = refl
