-- ===== src/V5/ConnAck/Code.antt =====
-- `ConnackReasonCode` of connack.rs, and its number on the wire.
use mymq.Base.{ℕ, ◌≡◌, refl, ◌==◌, if◌then◌else◌}
use mymq.Error.{Result, ok, err, malformed}

pub data ConnackReasonCode : Type 0 where
  success unspecified_error malformed_packet protocol_error : ConnackReasonCode
  implementation_error unsupported_protocol_version invalid_client_id : ConnackReasonCode
  bad_login not_authorized server_unavailable server_busy banned : ConnackReasonCode
  bad_authentication_method topic_name_invalid packet_too_large : ConnackReasonCode
  quota_exceeded payload_format_invalid retain_not_supported invalid_qos : ConnackReasonCode
  use_another_server server_moved exceed_connection_rate : ConnackReasonCode

unfoldable pub to_u8 : ConnackReasonCode → ℕ
to_u8 success = 0x00
to_u8 unspecified_error = 0x80
to_u8 malformed_packet = 0x81
to_u8 protocol_error = 0x82
to_u8 implementation_error = 0x83
to_u8 unsupported_protocol_version = 0x84
to_u8 invalid_client_id = 0x85
to_u8 bad_login = 0x86
to_u8 not_authorized = 0x87
to_u8 server_unavailable = 0x88
to_u8 server_busy = 0x89
to_u8 banned = 0x8a
to_u8 bad_authentication_method = 0x8c
to_u8 topic_name_invalid = 0x90
to_u8 packet_too_large = 0x95
to_u8 quota_exceeded = 0x97
to_u8 payload_format_invalid = 0x99
to_u8 retain_not_supported = 0x9a
to_u8 invalid_qos = 0x9b
to_u8 use_another_server = 0x9c
to_u8 server_moved = 0x9d
to_u8 exceed_connection_rate = 0x9f

unfoldable pub try_from : ℕ → Result ConnackReasonCode
try_from val =
    if val == 0x00
    then ok success
    else if val == 0x80
    then ok unspecified_error
    else if val == 0x81
    then ok malformed_packet
    else if val == 0x82
    then ok protocol_error
    else if val == 0x83
    then ok implementation_error
    else if val == 0x84
    then ok unsupported_protocol_version
    else if val == 0x85
    then ok invalid_client_id
    else if val == 0x86
    then ok bad_login
    else if val == 0x87
    then ok not_authorized
    else if val == 0x88
    then ok server_unavailable
    else if val == 0x89
    then ok server_busy
    else if val == 0x8a
    then ok banned
    else if val == 0x8c
    then ok bad_authentication_method
    else if val == 0x90
    then ok topic_name_invalid
    else if val == 0x95
    then ok packet_too_large
    else if val == 0x97
    then ok quota_exceeded
    else if val == 0x99
    then ok payload_format_invalid
    else if val == 0x9a
    then ok retain_not_supported
    else if val == 0x9b
    then ok invalid_qos
    else if val == 0x9c
    then ok use_another_server
    else if val == 0x9d
    then ok server_moved
    else if val == 0x9f
    then ok exceed_connection_rate
    else err malformed

pub try_from-to_u8 : (code : ConnackReasonCode) → try_from (to_u8 code) ≡ ok code
unfolding try_from to_u8
try_from-to_u8 success = refl
try_from-to_u8 unspecified_error = refl
try_from-to_u8 malformed_packet = refl
try_from-to_u8 protocol_error = refl
try_from-to_u8 implementation_error = refl
try_from-to_u8 unsupported_protocol_version = refl
try_from-to_u8 invalid_client_id = refl
try_from-to_u8 bad_login = refl
try_from-to_u8 not_authorized = refl
try_from-to_u8 server_unavailable = refl
try_from-to_u8 server_busy = refl
try_from-to_u8 banned = refl
try_from-to_u8 bad_authentication_method = refl
try_from-to_u8 topic_name_invalid = refl
try_from-to_u8 packet_too_large = refl
try_from-to_u8 quota_exceeded = refl
try_from-to_u8 payload_format_invalid = refl
try_from-to_u8 retain_not_supported = refl
try_from-to_u8 invalid_qos = refl
try_from-to_u8 use_another_server = refl
try_from-to_u8 server_moved = refl
try_from-to_u8 exceed_connection_rate = refl
