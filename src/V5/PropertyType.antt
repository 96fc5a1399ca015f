-- ===== src/V5/PropertyType.antt =====
-- `PropertyType` of v5/mod.rs, and its number on the wire.
use mymq.Base.{ℕ, ◌≡◌, refl, ◌==◌, if◌then◌else◌, arith}
use mymq.Error.{Result, ok, err, malformed}

pub data PropertyType : Type 0 where
  payload_format_indicator message_expiry_interval content_type response_topic correlation_data :
      PropertyType
  subscription_identifier session_expiry_interval assigned_client_identifier server_keep_alive :
      PropertyType
  authentication_method authentication_data request_problem_information will_delay_interval :
      PropertyType
  request_response_information response_information server_reference reason_string : PropertyType
  receive_maximum topic_alias_maximum topic_alias maximum_qos retain_available user_prop :
      PropertyType
  maximum_packet_size wildcard_subscription_available subscription_identifier_available :
      PropertyType
  shared_subscription_available : PropertyType

unfoldable pub to_u32 : PropertyType → ℕ
to_u32 payload_format_indicator = 1
to_u32 message_expiry_interval = 2
to_u32 content_type = 3
to_u32 response_topic = 8
to_u32 correlation_data = 9
to_u32 subscription_identifier = 11
to_u32 session_expiry_interval = 17
to_u32 assigned_client_identifier = 18
to_u32 server_keep_alive = 19
to_u32 authentication_method = 21
to_u32 authentication_data = 22
to_u32 request_problem_information = 23
to_u32 will_delay_interval = 24
to_u32 request_response_information = 25
to_u32 response_information = 26
to_u32 server_reference = 28
to_u32 reason_string = 31
to_u32 receive_maximum = 33
to_u32 topic_alias_maximum = 34
to_u32 topic_alias = 35
to_u32 maximum_qos = 36
to_u32 retain_available = 37
to_u32 user_prop = 38
to_u32 maximum_packet_size = 39
to_u32 wildcard_subscription_available = 40
to_u32 subscription_identifier_available = 41
to_u32 shared_subscription_available = 42

unfoldable pub try_from : ℕ → Result PropertyType
try_from val =
    if val == 1
    then ok payload_format_indicator
    else if val == 2
    then ok message_expiry_interval
    else if val == 3
    then ok content_type
    else if val == 8
    then ok response_topic
    else if val == 9
    then ok correlation_data
    else if val == 11
    then ok subscription_identifier
    else if val == 17
    then ok session_expiry_interval
    else if val == 18
    then ok assigned_client_identifier
    else if val == 19
    then ok server_keep_alive
    else if val == 21
    then ok authentication_method
    else if val == 22
    then ok authentication_data
    else if val == 23
    then ok request_problem_information
    else if val == 24
    then ok will_delay_interval
    else if val == 25
    then ok request_response_information
    else if val == 26
    then ok response_information
    else if val == 28
    then ok server_reference
    else if val == 31
    then ok reason_string
    else if val == 33
    then ok receive_maximum
    else if val == 34
    then ok topic_alias_maximum
    else if val == 35
    then ok topic_alias
    else if val == 36
    then ok maximum_qos
    else if val == 37
    then ok retain_available
    else if val == 38
    then ok user_prop
    else if val == 39
    then ok maximum_packet_size
    else if val == 40
    then ok wildcard_subscription_available
    else if val == 41
    then ok subscription_identifier_available
    else if val == 42
    then ok shared_subscription_available
    else err malformed

pub try_from-to_u32 : (t : PropertyType) → try_from (to_u32 t) ≡ ok t
unfolding try_from to_u32
try_from-to_u32 payload_format_indicator = refl
try_from-to_u32 message_expiry_interval = refl
try_from-to_u32 content_type = refl
try_from-to_u32 response_topic = refl
try_from-to_u32 correlation_data = refl
try_from-to_u32 subscription_identifier = refl
try_from-to_u32 session_expiry_interval = refl
try_from-to_u32 assigned_client_identifier = refl
try_from-to_u32 server_keep_alive = refl
try_from-to_u32 authentication_method = refl
try_from-to_u32 authentication_data = refl
try_from-to_u32 request_problem_information = refl
try_from-to_u32 will_delay_interval = refl
try_from-to_u32 request_response_information = refl
try_from-to_u32 response_information = refl
try_from-to_u32 server_reference = refl
try_from-to_u32 reason_string = refl
try_from-to_u32 receive_maximum = refl
try_from-to_u32 topic_alias_maximum = refl
try_from-to_u32 topic_alias = refl
try_from-to_u32 maximum_qos = refl
try_from-to_u32 retain_available = refl
try_from-to_u32 user_prop = refl
try_from-to_u32 maximum_packet_size = refl
try_from-to_u32 wildcard_subscription_available = refl
try_from-to_u32 subscription_identifier_available = refl
try_from-to_u32 shared_subscription_available = refl

pub to_u32_of_try_from : (val : ℕ) (t : PropertyType) → try_from val ≡ ok t → to_u32 t ≡ val
unfolding try_from to_u32
to_u32_of_try_from val t h = ground arith
