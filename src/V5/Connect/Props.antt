-- ===== src/V5/Connect/Props.antt =====
-- `ConnectProperties` of connect.rs
pub mod Laws
pub mod Safe
use mymq.Base.{ℕ, Bool, List, [], ◌∷◌, ◌++◌, Option, none, some, ◌==◌, ◌||◌, if◌then◌else◌}
use mymq.Error.{Result, ok, err, protocol, ◌>>=◌}
use mymq.Types.Blob.{Blob, Decoder}
use mymq.Types.U16
use mymq.Types.U32
use mymq.Types.Utf8.{Str}
use mymq.Types.Text.{UserProperty, encode_user_property, encode_string, encode_bytes}
use mymq.V5.Flag.{enc_bool, bool_of, bit}
use mymq.V5.PropertyType.{PropertyType}
use mymq.V5.Property.{Property}
use mymq.V5.Frame.{user_only, decode_props, put_opt, put_all, close_props}

pub record ConnectProperties : Type 0 where
  pub session_expiry_interval : Option ℕ
  pub receive_maximum : Option ℕ
  pub max_packet_size : Option ℕ
  pub topic_alias_max : Option ℕ
  pub request_response_info : Option Bool
  pub request_problem_info : Option Bool
  pub authentication_method : Option Str
  pub authentication_data : Option (List ℕ)
  pub user_properties : List UserProperty

abbrev pub default_props : ConnectProperties
default_props = record {
  session_expiry_interval = none;
  receive_maximum = none;
  max_packet_size = none;
  topic_alias_max = none;
  request_response_info = none;
  request_problem_info = none;
  authentication_method = none;
  authentication_data = none;
  user_properties = [];
}

-- The match on a property.
unfoldable pub set_prop : ConnectProperties → Property → Result ConnectProperties
unfolding bool_of
set_prop props (Property.session_expiry_interval val) =
    ok (record props { session_expiry_interval = some val })
set_prop props (Property.receive_maximum val) =
    if val == 0 then err protocol else ok (record props { receive_maximum = some val })
set_prop props (Property.maximum_packet_size val) =
    if val == 0 then err protocol else ok (record props { max_packet_size = some val })
set_prop props (Property.topic_alias_maximum val) = ok (record props { topic_alias_max = some val })
set_prop props (Property.request_response_information val) =
    bool_of val >>= λ flag. ok (record props { request_response_info = some flag })
set_prop props (Property.request_problem_information val) =
    bool_of val >>= λ flag. ok (record props { request_problem_info = some flag })
set_prop props (Property.authentication_method val) =
    ok (record props { authentication_method = some val })
set_prop props (Property.authentication_data val) =
    ok (record props { authentication_data = some val })
set_prop props (Property.user_prop val) =
    ok (record props { user_properties = props.user_properties ++ (val ∷ []) })
set_prop props property = err protocol

unfoldable pub decode_connect_props : Decoder ConnectProperties
unfolding decode_props set_prop
decode_connect_props stream = decode_props user_only set_prop default_props stream

unfoldable pub put_connect_props : ConnectProperties → List ℕ → Result (List ℕ)
unfolding put_opt put_all
put_connect_props props buf = do
  buf1 ← put_opt PropertyType.session_expiry_interval U32.encode props.session_expiry_interval buf
  buf2 ← put_opt PropertyType.receive_maximum U16.encode props.receive_maximum buf1
  buf3 ← put_opt PropertyType.maximum_packet_size U32.encode props.max_packet_size buf2
  buf4 ← put_opt PropertyType.topic_alias_maximum U16.encode props.topic_alias_max buf3
  buf5 ← put_opt PropertyType.request_response_information enc_bool props.request_response_info buf4
  buf6 ← put_opt PropertyType.request_problem_information enc_bool props.request_problem_info buf5
  buf7 ← put_opt PropertyType.authentication_method encode_string props.authentication_method buf6
  buf8 ← put_opt PropertyType.authentication_data encode_bytes props.authentication_data buf7
  put_all PropertyType.user_prop encode_user_property props.user_properties buf8

unfoldable pub encode_connect_props : ConnectProperties → Result Blob
unfolding put_connect_props close_props
encode_connect_props props = put_connect_props props [] >>= close_props
