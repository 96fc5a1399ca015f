-- ===== src/Error.antt =====
-- error.rs: the values by which the library reports failure. An error's description, location and
-- cause are for the log, and are not modelled.
pub mod Ensures
use mymq.Base.{◌≡◌, refl, Option, none, some}

pub data ErrorKind : Type 0 where
  no_error invalid_input malformed_packet protocol_error unsupported_protocol_version : ErrorKind
  insufficient_bytes session_taken_over disconnected slow_client : ErrorKind
  ipc_fail rx_closed tx_finish infallible parse_bool_error parse_float_error : ErrorKind
  parse_int_error try_from_int_error try_from_addr_error uuid_error io_error : ErrorKind

pub data ReasonCode : Type 0 where
  success qos1 qos2 diconnect_will_message no_matching_subscribers : ReasonCode
  no_subscription_existed continue_authentication re_authenticate unspecified_error : ReasonCode
  malformed_packet protocol_error implementation_error unsupported_protocol_version : ReasonCode
  invalid_client_id bad_login not_authorized server_not_available server_busy banned : ReasonCode
  server_shutdown bad_authentication_method keep_alive_timeout session_taken_over : ReasonCode
  invalid_topic_filter topic_name_invalid packet_id_inuse packet_id_not_found : ReasonCode
  exceeded_receive_maximum topic_alias_invalid packet_too_large exceed_message_rate : ReasonCode
  quota_exceeded admin_action payload_format_invalid retain_not_supported : ReasonCode
  qos_not_supported use_another_server server_moved unsupported_shared_subscription : ReasonCode
  exceed_connection_rate exceed_maximum_connect_time subscription_id_not_supported : ReasonCode
  wildcard_subscriptions_not_supported : ReasonCode

pub record Error : Type 0 where
  pub kind : ErrorKind
  pub code : Option ReasonCode

-- Rust's `Result<T, Error>`, with a third case for a panic (`unreachable!`, `unwrap`, `assert!`).
pub data Result {ℓ} (A : Type ℓ) : Type ℓ where
  panic : Result A
  err : Error → Result A
  ok : A → Result A

-- The operator `?`, and the two statements one after the other.
module _ {ℓ κ} {A : Type ℓ} {B : Type κ} where
  infixl 5 ◌>>=◌
  abbrev pub ◌>>=◌ : Result A → (A → Result B) → Result B
  panic >>= next = panic
  err failure >>= next = err failure
  ok val >>= next = next val

  infixl 5 ◌>>◌
  abbrev pub ◌>>◌ : Result A → Result B → Result B
  stmt >> rest = stmt >>= (λ val. rest)

-- `err!(MalformedPacket, code: MalformedPacket, …)` and the other pairs that the code raises.
abbrev pub malformed : Error
malformed = record { kind = ErrorKind.malformed_packet; code = some ReasonCode.malformed_packet }

abbrev pub insufficient : Error
insufficient = record {
  kind = ErrorKind.insufficient_bytes;
  code = some ReasonCode.malformed_packet;
}

abbrev pub protocol : Error
protocol = record { kind = ErrorKind.protocol_error; code = some ReasonCode.protocol_error }

-- `err!(ProtocolError, desc: …)` carries no reason code.
abbrev pub protocol_desc : Error
protocol_desc = record { kind = ErrorKind.protocol_error; code = none }

-- A chain that succeeds has a first step that does.
pub first_step {ℓ κ} :
    {A : Type ℓ} {B : Type κ} {next : A → Result B} {result : B} (step : Result A)
    → (step >>= next) ≡ ok result
    → (val : A) × (next val ≡ ok result) × (step ≡ ok val)
first_step panic chained = cc
first_step (err failure) chained = cc
first_step (ok val) chained = (val, chained, refl)
