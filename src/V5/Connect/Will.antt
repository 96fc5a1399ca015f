-- ===== src/V5/Connect/Will.antt =====
-- `WillProperties` of connect.rs
pub mod Laws
pub mod Safe
use mymq.Base.{ℕ, Bool, List, [], ◌∷◌, ◌++◌, Option, none, some, ◌==◌, ◌||◌, if◌then◌else◌}
use mymq.Error.{Result, ok, err, protocol, ◌>>=◌}
use mymq.Types.Blob.{Blob, Decoder}
use mymq.Types.U32
use mymq.Types.Utf8.{Str}
use mymq.Types.Text.{UserProperty, encode_user_property, encode_string, encode_bytes}
use mymq.Types.Topic.{TopicName, encode_name}
use mymq.V5.PayloadFormat
use mymq.V5.PayloadFormat.{PayloadFormat, put_format}
use mymq.V5.PropertyType.{PropertyType}
use mymq.V5.Property.{Property}
use mymq.V5.Frame.{user_only, decode_props, put_opt, put_all, close_props}

pub record WillProperties : Type 0 where
  pub will_delay_interval : Option ℕ
  pub payload_format_indicator : PayloadFormat
  pub message_expiry_interval : Option ℕ
  pub content_type : Option Str
  pub response_topic : Option TopicName
  pub correlation_data : Option (List ℕ)
  pub user_properties : List UserProperty

abbrev pub default_props : WillProperties
default_props = record {
  will_delay_interval = none;
  payload_format_indicator = PayloadFormat.binary;
  message_expiry_interval = none;
  content_type = none;
  response_topic = none;
  correlation_data = none;
  user_properties = [];
}

-- The match on a property.
unfoldable pub set_prop : WillProperties → Property → Result WillProperties
unfolding PayloadFormat.try_from
set_prop props (Property.will_delay_interval val) =
    ok (record props { will_delay_interval = some val })
set_prop props (Property.payload_format_indicator val) =
    PayloadFormat.try_from val >>= λ format. ok (record props { payload_format_indicator = format })
set_prop props (Property.message_expiry_interval val) =
    ok (record props { message_expiry_interval = some val })
set_prop props (Property.content_type val) = ok (record props { content_type = some val })
set_prop props (Property.response_topic val) = ok (record props { response_topic = some val })
set_prop props (Property.correlation_data val) = ok (record props { correlation_data = some val })
set_prop props (Property.user_prop val) =
    ok (record props { user_properties = props.user_properties ++ (val ∷ []) })
set_prop props property = err protocol

unfoldable pub decode_will_props : Decoder WillProperties
unfolding decode_props set_prop
decode_will_props stream = decode_props user_only set_prop default_props stream

unfoldable pub put_will_props : WillProperties → List ℕ → Result (List ℕ)
unfolding put_opt put_all put_format
put_will_props props buf = do
  buf1 ← put_opt PropertyType.will_delay_interval U32.encode props.will_delay_interval buf
  buf2 ← put_format props.payload_format_indicator buf1
  buf3 ← put_opt PropertyType.message_expiry_interval U32.encode props.message_expiry_interval buf2
  buf4 ← put_opt PropertyType.content_type encode_string props.content_type buf3
  buf5 ← put_opt PropertyType.response_topic encode_name props.response_topic buf4
  buf6 ← put_opt PropertyType.correlation_data encode_bytes props.correlation_data buf5
  put_all PropertyType.user_prop encode_user_property props.user_properties buf6

unfoldable pub encode_will_props : WillProperties → Result Blob
unfolding put_will_props close_props
encode_will_props props = put_will_props props [] >>= close_props
