-- ===== src/V5/Publish/Props.antt =====
-- `PublishProperties` of publish.rs
pub mod Laws
pub mod Safe
use mymq.Base.{ℕ, Bool, List, [], ◌∷◌, ◌++◌, Option, none, some, ◌==◌, ◌||◌, if◌then◌else◌}
use mymq.Error.{Result, ok, err, protocol, ◌>>=◌}
use mymq.Types.Blob.{Blob, Decoder}
use mymq.Types.U16
use mymq.Types.U32
use mymq.Types.VarU32
use mymq.Types.Utf8.{Str}
use mymq.Types.Text.{UserProperty, encode_user_property, encode_string, encode_bytes}
use mymq.Types.Topic.{TopicName, encode_name}
use mymq.V5.PayloadFormat
use mymq.V5.PayloadFormat.{PayloadFormat, put_format}
use mymq.V5.PropertyType.{PropertyType}
use mymq.V5.Property.{Property}
use mymq.V5.Frame.{user_only, decode_props, put_opt, put_all, close_props}

pub record PublishProperties : Type 0 where
  pub payload_format_indicator : PayloadFormat
  pub message_expiry_interval : Option ℕ
  pub topic_alias : Option ℕ
  pub response_topic : Option TopicName
  pub correlation_data : Option (List ℕ)
  pub content_type : Option Str
  pub subscribtion_identifier : List ℕ
  pub user_properties : List UserProperty

abbrev pub default_props : PublishProperties
default_props = record {
  payload_format_indicator = PayloadFormat.binary;
  message_expiry_interval = none;
  topic_alias = none;
  response_topic = none;
  correlation_data = none;
  content_type = none;
  subscribtion_identifier = [];
  user_properties = [];
}

-- `dup_ok`
abbrev pub publish_dup_ok : ℕ → Bool
publish_dup_ok number = number == 38 || number == 11

-- The match on a property.
unfoldable pub set_prop : PublishProperties → Property → Result PublishProperties
unfolding PayloadFormat.try_from
set_prop props (Property.payload_format_indicator val) =
    PayloadFormat.try_from val >>= λ format. ok (record props { payload_format_indicator = format })
set_prop props (Property.message_expiry_interval val) =
    ok (record props { message_expiry_interval = some val })
set_prop props (Property.topic_alias val) =
    if val == 0 then err protocol else ok (record props { topic_alias = some val })
set_prop props (Property.response_topic val) = ok (record props { response_topic = some val })
set_prop props (Property.correlation_data val) = ok (record props { correlation_data = some val })
set_prop props (Property.content_type val) = ok (record props { content_type = some val })
set_prop props (Property.subscription_identifier val) =
    ok (record props { subscribtion_identifier = props.subscribtion_identifier ++ (val ∷ []) })
set_prop props (Property.user_prop val) =
    ok (record props { user_properties = props.user_properties ++ (val ∷ []) })
set_prop props property = err protocol

unfoldable pub decode_publish_props : Decoder PublishProperties
unfolding decode_props set_prop
decode_publish_props stream = decode_props publish_dup_ok set_prop default_props stream

unfoldable pub put_publish_props : PublishProperties → List ℕ → Result (List ℕ)
unfolding put_opt put_all put_format
put_publish_props props buf = do
  buf1 ← put_format props.payload_format_indicator buf
  buf2 ← put_opt PropertyType.message_expiry_interval U32.encode props.message_expiry_interval buf1
  buf3 ← put_opt PropertyType.topic_alias U16.encode props.topic_alias buf2
  buf4 ← put_opt PropertyType.response_topic encode_name props.response_topic buf3
  buf5 ← put_opt PropertyType.correlation_data encode_bytes props.correlation_data buf4
  buf6 ← put_opt PropertyType.content_type encode_string props.content_type buf5
  buf7 ←
      put_all PropertyType.subscription_identifier VarU32.encode props.subscribtion_identifier buf6
  put_all PropertyType.user_prop encode_user_property props.user_properties buf7

unfoldable pub encode_publish_props : PublishProperties → Result Blob
unfolding put_publish_props close_props
encode_publish_props props = put_publish_props props [] >>= close_props
