-- ===== src/V5/Property/Safe.antt =====
-- Properties are read without a panic, and no more is taken than is there.
use mymq.Base.{ℕ, ◌+◌, length, ◌≡◌, arith}
use mymq.Error.Ensures.{NoPanic, Ensures-bind}
use mymq.Types.Blob.{Decoder, advance}
use mymq.Types.U8
use mymq.Types.VarU32
use mymq.Types.Safe.{
  Within, Safe, advance-Ensures, dec_field-Ensures, u8-Safe, u16-Safe, u32-Safe, var-Safe,
  string-Safe, bytes-Safe, user-Safe, name-Safe,
}
use mymq.V5.Qos
use mymq.V5.PropertyType
use mymq.V5.PropertyType.{PropertyType}
use mymq.V5.Property.{Property, dec_prop, decode_qos, decode_value, decode}

dec_prop-Safe :
    {A : Type 0} (make : A → Property) (dec : Decoder A) → Safe dec → Safe (dec_prop make dec)
unfolding dec_prop
dec_prop-Safe make dec safe stream =
    Ensures-bind (Within (length stream)) _ (dec stream) _ (safe stream) (λ (val, n) e h. h)

qos-NoPanic : (val : ℕ) → NoPanic (Qos.try_from val)
unfolding Qos.try_from
qos-NoPanic val = ground arith

qos-Safe : Safe decode_qos
unfolding decode_qos
qos-Safe stream =
    Ensures-bind (Within (length stream)) _ (U8.decode stream) _ (u8-Safe stream)
      (λ (val, n) e h. Ensures-bind _ _ (Qos.try_from val) _ (qos-NoPanic val) (λ qos e' h'. h))

value-Safe : (t : PropertyType) → Safe (decode_value t)
unfolding decode_value
value-Safe PropertyType.payload_format_indicator = dec_prop-Safe _ _ u8-Safe
value-Safe PropertyType.message_expiry_interval = dec_prop-Safe _ _ u32-Safe
value-Safe PropertyType.content_type = dec_prop-Safe _ _ string-Safe
value-Safe PropertyType.response_topic = dec_prop-Safe _ _ name-Safe
value-Safe PropertyType.correlation_data = dec_prop-Safe _ _ bytes-Safe
value-Safe PropertyType.subscription_identifier = dec_prop-Safe _ _ var-Safe
value-Safe PropertyType.session_expiry_interval = dec_prop-Safe _ _ u32-Safe
value-Safe PropertyType.assigned_client_identifier = dec_prop-Safe _ _ string-Safe
value-Safe PropertyType.server_keep_alive = dec_prop-Safe _ _ u16-Safe
value-Safe PropertyType.authentication_method = dec_prop-Safe _ _ string-Safe
value-Safe PropertyType.authentication_data = dec_prop-Safe _ _ bytes-Safe
value-Safe PropertyType.request_problem_information = dec_prop-Safe _ _ u8-Safe
value-Safe PropertyType.will_delay_interval = dec_prop-Safe _ _ u32-Safe
value-Safe PropertyType.request_response_information = dec_prop-Safe _ _ u8-Safe
value-Safe PropertyType.response_information = dec_prop-Safe _ _ string-Safe
value-Safe PropertyType.server_reference = dec_prop-Safe _ _ string-Safe
value-Safe PropertyType.reason_string = dec_prop-Safe _ _ string-Safe
value-Safe PropertyType.receive_maximum = dec_prop-Safe _ _ u16-Safe
value-Safe PropertyType.topic_alias_maximum = dec_prop-Safe _ _ u16-Safe
value-Safe PropertyType.topic_alias = dec_prop-Safe _ _ u16-Safe
value-Safe PropertyType.maximum_qos = dec_prop-Safe _ _ qos-Safe
value-Safe PropertyType.retain_available = dec_prop-Safe _ _ u8-Safe
value-Safe PropertyType.user_prop = dec_prop-Safe _ _ user-Safe
value-Safe PropertyType.maximum_packet_size = dec_prop-Safe _ _ u32-Safe
value-Safe PropertyType.wildcard_subscription_available = dec_prop-Safe _ _ u8-Safe
value-Safe PropertyType.subscription_identifier_available = dec_prop-Safe _ _ u8-Safe
value-Safe PropertyType.shared_subscription_available = dec_prop-Safe _ _ u8-Safe

type-NoPanic : (number : ℕ) → NoPanic (PropertyType.try_from number)
unfolding PropertyType.try_from
type-NoPanic number = ground arith

pub property-Safe : Safe decode
unfolding decode
property-Safe stream =
    Ensures-bind (Within (length stream)) (Within (length stream)) _ _
      (dec_field-Ensures VarU32.decode stream 0 var-Safe)
      (λ (number, n) e h.
        Ensures-bind (λ rest. length rest + n ≡ length stream) (Within (length stream))
          (advance stream n) _ (advance-Ensures stream n)
          (λ rest e' size.
            Ensures-bind _ (Within (length stream)) (PropertyType.try_from number) _
              (type-NoPanic number)
              (λ t e'' u.
                Ensures-bind (Within (length rest)) (Within (length stream)) (decode_value t rest) _
                  (value-Safe t rest) (λ (property, m) e''' h'. omega arith))))
