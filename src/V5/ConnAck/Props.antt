-- ===== src/V5/ConnAck/Props.antt =====
-- `ConnAckProperties` of connack.rs
pub mod Laws
pub mod Listed
pub mod Safe
use mymq.Base.{ℕ, Bool, List, [], ◌∷◌, ◌++◌, Option, none, some, ◌==◌, ◌||◌, if◌then◌else◌}
use mymq.Error.{Result, ok, err, protocol, ◌>>=◌}
use mymq.Types.Blob.{Blob, Decoder}
use mymq.Types.U16
use mymq.Types.U32
use mymq.Types.Utf8.{Str}
use mymq.Types.Text.{UserProperty, encode_user_property, encode_string, encode_bytes}
use mymq.V5.Qos.{Qos}
use mymq.V5.Flag.{enc_bool, bool_of, bit}
use mymq.V5.PropertyType.{PropertyType}
use mymq.V5.Property.{Property, encode_qos}
use mymq.V5.Frame.{user_only, decode_props, put_opt, put_all, close_props}

pub record ConnAckProperties : Type 0 where
  pub session_expiry_interval : Option ℕ
  pub receive_maximum : Option ℕ
  pub maximum_qos : Option Qos
  pub retain_available : Option Bool
  pub max_packet_size : Option ℕ
  pub assigned_client_identifier : Option Str
  pub topic_alias_max : Option ℕ
  pub reason_string : Option Str
  pub wildcard_subscription_available : Option Bool
  pub subscription_identifiers_available : Option Bool
  pub shared_subscription_available : Option Bool
  pub server_keep_alive : Option ℕ
  pub response_information : Option Str
  pub server_reference : Option Str
  pub authentication_method : Option Str
  pub authentication_data : Option (List ℕ)
  pub user_properties : List UserProperty

abbrev pub default_props : ConnAckProperties
default_props = record {
  session_expiry_interval = none;
  receive_maximum = none;
  maximum_qos = none;
  retain_available = none;
  max_packet_size = none;
  assigned_client_identifier = none;
  topic_alias_max = none;
  reason_string = none;
  wildcard_subscription_available = none;
  subscription_identifiers_available = none;
  shared_subscription_available = none;
  server_keep_alive = none;
  response_information = none;
  server_reference = none;
  authentication_method = none;
  authentication_data = none;
  user_properties = [];
}

-- The match on a property.
unfoldable pub set_prop : ConnAckProperties → Property → Result ConnAckProperties
unfolding bool_of
set_prop props (Property.session_expiry_interval val) =
    ok (record props { session_expiry_interval = some val })
set_prop props (Property.receive_maximum val) =
    if val == 0 then err protocol else ok (record props { receive_maximum = some val })
set_prop props (Property.maximum_qos val) = ok (record props { maximum_qos = some val })
set_prop props (Property.retain_available val) =
    bool_of val >>= λ flag. ok (record props { retain_available = some flag })
set_prop props (Property.maximum_packet_size val) =
    if val == 0 then err protocol else ok (record props { max_packet_size = some val })
set_prop props (Property.assigned_client_identifier val) =
    ok (record props { assigned_client_identifier = some val })
set_prop props (Property.topic_alias_maximum val) = ok (record props { topic_alias_max = some val })
set_prop props (Property.reason_string val) = ok (record props { reason_string = some val })
set_prop props (Property.wildcard_subscription_available val) =
    bool_of val >>= λ flag. ok (record props { wildcard_subscription_available = some flag })
set_prop props (Property.subscription_identifier_available val) =
    bool_of val >>= λ flag. ok (record props { subscription_identifiers_available = some flag })
set_prop props (Property.shared_subscription_available val) =
    bool_of val >>= λ flag. ok (record props { shared_subscription_available = some flag })
set_prop props (Property.server_keep_alive val) = ok (record props { server_keep_alive = some val })
set_prop props (Property.response_information val) =
    ok (record props { response_information = some val })
set_prop props (Property.server_reference val) = ok (record props { server_reference = some val })
set_prop props (Property.authentication_method val) =
    ok (record props { authentication_method = some val })
set_prop props (Property.authentication_data val) =
    ok (record props { authentication_data = some val })
set_prop props (Property.user_prop val) =
    ok (record props { user_properties = props.user_properties ++ (val ∷ []) })
set_prop props property = err protocol

unfoldable pub decode_connack_props : Decoder ConnAckProperties
unfolding decode_props set_prop
decode_connack_props stream = decode_props user_only set_prop default_props stream

unfoldable pub put_connack_props : ConnAckProperties → List ℕ → Result (List ℕ)
unfolding put_opt put_all
put_connack_props props buf = do
  buf1 ← put_opt PropertyType.session_expiry_interval U32.encode props.session_expiry_interval buf
  buf2 ← put_opt PropertyType.receive_maximum U16.encode props.receive_maximum buf1
  buf3 ← put_opt PropertyType.maximum_qos encode_qos props.maximum_qos buf2
  buf4 ← put_opt PropertyType.retain_available enc_bool props.retain_available buf3
  buf5 ← put_opt PropertyType.maximum_packet_size U32.encode props.max_packet_size buf4
  buf6 ←
      put_opt PropertyType.assigned_client_identifier encode_string props.assigned_client_identifier
        buf5
  buf7 ← put_opt PropertyType.topic_alias_maximum U16.encode props.topic_alias_max buf6
  buf8 ← put_opt PropertyType.reason_string encode_string props.reason_string buf7
  buf9 ←
      put_opt PropertyType.wildcard_subscription_available enc_bool
        props.wildcard_subscription_available buf8
  buf10 ←
      put_opt PropertyType.subscription_identifier_available enc_bool
        props.subscription_identifiers_available buf9
  buf11 ←
      put_opt PropertyType.shared_subscription_available enc_bool
        props.shared_subscription_available buf10
  buf12 ← put_opt PropertyType.server_keep_alive U16.encode props.server_keep_alive buf11
  buf13 ← put_opt PropertyType.response_information encode_string props.response_information buf12
  buf14 ← put_opt PropertyType.server_reference encode_string props.server_reference buf13
  buf15 ← put_opt PropertyType.authentication_method encode_string props.authentication_method buf14
  buf16 ← put_opt PropertyType.authentication_data encode_bytes props.authentication_data buf15
  put_all PropertyType.user_prop encode_user_property props.user_properties buf16

unfoldable pub encode_connack_props : ConnAckProperties → Result Blob
unfolding put_connack_props close_props
encode_connack_props props = put_connack_props props [] >>= close_props
