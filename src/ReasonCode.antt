-- ===== src/ReasonCode.antt =====
-- The numbers of `ReasonCode` of error.rs.
use mymq.Base.{ℕ, ◌≡◌, refl, ◌==◌, if◌then◌else◌, arith}
use mymq.Error.{Result, ok, err, malformed, ReasonCode}
use mymq.Error.ReasonCode.{
  success, qos1, qos2, diconnect_will_message, no_matching_subscribers, no_subscription_existed,
  continue_authentication, re_authenticate, unspecified_error, malformed_packet, protocol_error,
  implementation_error, unsupported_protocol_version, invalid_client_id, bad_login, not_authorized,
  server_not_available, server_busy, banned, server_shutdown, bad_authentication_method,
  keep_alive_timeout, session_taken_over, invalid_topic_filter, topic_name_invalid, packet_id_inuse,
  packet_id_not_found, exceeded_receive_maximum, topic_alias_invalid, packet_too_large,
  exceed_message_rate, quota_exceeded, admin_action, payload_format_invalid, retain_not_supported,
  qos_not_supported, use_another_server, server_moved, unsupported_shared_subscription,
  exceed_connection_rate, exceed_maximum_connect_time, subscription_id_not_supported,
  wildcard_subscriptions_not_supported,
}

unfoldable pub to_u8 : ReasonCode → ℕ
to_u8 success = 0
to_u8 qos1 = 1
to_u8 qos2 = 2
to_u8 diconnect_will_message = 4
to_u8 no_matching_subscribers = 16
to_u8 no_subscription_existed = 17
to_u8 continue_authentication = 24
to_u8 re_authenticate = 25
to_u8 unspecified_error = 128
to_u8 malformed_packet = 129
to_u8 protocol_error = 130
to_u8 implementation_error = 131
to_u8 unsupported_protocol_version = 132
to_u8 invalid_client_id = 133
to_u8 bad_login = 134
to_u8 not_authorized = 135
to_u8 server_not_available = 136
to_u8 server_busy = 137
to_u8 banned = 138
to_u8 server_shutdown = 139
to_u8 bad_authentication_method = 140
to_u8 keep_alive_timeout = 141
to_u8 session_taken_over = 142
to_u8 invalid_topic_filter = 143
to_u8 topic_name_invalid = 144
to_u8 packet_id_inuse = 145
to_u8 packet_id_not_found = 146
to_u8 exceeded_receive_maximum = 147
to_u8 topic_alias_invalid = 148
to_u8 packet_too_large = 149
to_u8 exceed_message_rate = 150
to_u8 quota_exceeded = 151
to_u8 admin_action = 152
to_u8 payload_format_invalid = 153
to_u8 retain_not_supported = 154
to_u8 qos_not_supported = 155
to_u8 use_another_server = 156
to_u8 server_moved = 157
to_u8 unsupported_shared_subscription = 158
to_u8 exceed_connection_rate = 159
to_u8 exceed_maximum_connect_time = 160
to_u8 subscription_id_not_supported = 161
to_u8 wildcard_subscriptions_not_supported = 162

unfoldable pub try_from : ℕ → Result ReasonCode
try_from val =
    if val == 0
    then ok success
    else if val == 1
    then ok qos1
    else if val == 2
    then ok qos2
    else if val == 4
    then ok diconnect_will_message
    else if val == 16
    then ok no_matching_subscribers
    else if val == 17
    then ok no_subscription_existed
    else if val == 24
    then ok continue_authentication
    else if val == 25
    then ok re_authenticate
    else if val == 128
    then ok unspecified_error
    else if val == 129
    then ok malformed_packet
    else if val == 130
    then ok protocol_error
    else if val == 131
    then ok implementation_error
    else if val == 132
    then ok unsupported_protocol_version
    else if val == 133
    then ok invalid_client_id
    else if val == 134
    then ok bad_login
    else if val == 135
    then ok not_authorized
    else if val == 136
    then ok server_not_available
    else if val == 137
    then ok server_busy
    else if val == 138
    then ok banned
    else if val == 139
    then ok server_shutdown
    else if val == 140
    then ok bad_authentication_method
    else if val == 141
    then ok keep_alive_timeout
    else if val == 142
    then ok session_taken_over
    else if val == 143
    then ok invalid_topic_filter
    else if val == 144
    then ok topic_name_invalid
    else if val == 145
    then ok packet_id_inuse
    else if val == 146
    then ok packet_id_not_found
    else if val == 147
    then ok exceeded_receive_maximum
    else if val == 148
    then ok topic_alias_invalid
    else if val == 149
    then ok packet_too_large
    else if val == 150
    then ok exceed_message_rate
    else if val == 151
    then ok quota_exceeded
    else if val == 152
    then ok admin_action
    else if val == 153
    then ok payload_format_invalid
    else if val == 154
    then ok retain_not_supported
    else if val == 155
    then ok qos_not_supported
    else if val == 156
    then ok use_another_server
    else if val == 157
    then ok server_moved
    else if val == 158
    then ok unsupported_shared_subscription
    else if val == 159
    then ok exceed_connection_rate
    else if val == 160
    then ok exceed_maximum_connect_time
    else if val == 161
    then ok subscription_id_not_supported
    else if val == 162
    then ok wildcard_subscriptions_not_supported
    else err malformed

pub try_from-to_u8 : (t : ReasonCode) → try_from (to_u8 t) ≡ ok t
unfolding try_from to_u8
try_from-to_u8 success = refl
try_from-to_u8 qos1 = refl
try_from-to_u8 qos2 = refl
try_from-to_u8 diconnect_will_message = refl
try_from-to_u8 no_matching_subscribers = refl
try_from-to_u8 no_subscription_existed = refl
try_from-to_u8 continue_authentication = refl
try_from-to_u8 re_authenticate = refl
try_from-to_u8 unspecified_error = refl
try_from-to_u8 malformed_packet = refl
try_from-to_u8 protocol_error = refl
try_from-to_u8 implementation_error = refl
try_from-to_u8 unsupported_protocol_version = refl
try_from-to_u8 invalid_client_id = refl
try_from-to_u8 bad_login = refl
try_from-to_u8 not_authorized = refl
try_from-to_u8 server_not_available = refl
try_from-to_u8 server_busy = refl
try_from-to_u8 banned = refl
try_from-to_u8 server_shutdown = refl
try_from-to_u8 bad_authentication_method = refl
try_from-to_u8 keep_alive_timeout = refl
try_from-to_u8 session_taken_over = refl
try_from-to_u8 invalid_topic_filter = refl
try_from-to_u8 topic_name_invalid = refl
try_from-to_u8 packet_id_inuse = refl
try_from-to_u8 packet_id_not_found = refl
try_from-to_u8 exceeded_receive_maximum = refl
try_from-to_u8 topic_alias_invalid = refl
try_from-to_u8 packet_too_large = refl
try_from-to_u8 exceed_message_rate = refl
try_from-to_u8 quota_exceeded = refl
try_from-to_u8 admin_action = refl
try_from-to_u8 payload_format_invalid = refl
try_from-to_u8 retain_not_supported = refl
try_from-to_u8 qos_not_supported = refl
try_from-to_u8 use_another_server = refl
try_from-to_u8 server_moved = refl
try_from-to_u8 unsupported_shared_subscription = refl
try_from-to_u8 exceed_connection_rate = refl
try_from-to_u8 exceed_maximum_connect_time = refl
try_from-to_u8 subscription_id_not_supported = refl
try_from-to_u8 wildcard_subscriptions_not_supported = refl

pub to_u8_of_try_from : (val : ℕ) (t : ReasonCode) → try_from val ≡ ok t → to_u8 t ≡ val
unfolding try_from to_u8
to_u8_of_try_from val t h = ground arith
