-- ===== src/V5/AckProps.antt =====
-- `PubProperties` of pubaclc.rs, `SubAckProperties` of suback.rs and `UnsubAckProperties` of
-- unsuback.rs, which have the same fields and the same code.
pub mod Laws
pub mod Safe
use mymq.Base.{List, [], ◌∷◌, ◌++◌, Option, none, some, ℕ}
use mymq.Error.{Result, ok, err, protocol, ◌>>=◌}
use mymq.Types.Blob.{Blob, Decoder}
use mymq.Types.Utf8.{Str}
use mymq.Types.Text.{UserProperty, encode_string, encode_user_property}
use mymq.V5.PropertyType.{PropertyType}
use mymq.V5.Property.{Property}
use mymq.V5.Frame.{user_only, decode_props, put_opt, put_all, close_props}

pub record AckProperties : Type 0 where
  pub reason_string : Option Str
  pub user_properties : List UserProperty

abbrev pub default_props : AckProperties
default_props = record { reason_string = none; user_properties = [] }

-- The match on a property.
unfoldable pub set_prop : AckProperties → Property → Result AckProperties
set_prop props (Property.reason_string val) = ok (record props { reason_string = some val })
set_prop props (Property.user_prop val) =
    ok (record props { user_properties = props.user_properties ++ (val ∷ []) })
set_prop props property = err protocol

unfoldable pub decode_ack_props : Decoder AckProperties
unfolding decode_props set_prop
decode_ack_props stream = decode_props user_only set_prop default_props stream

unfoldable pub put_ack_props : AckProperties → List ℕ → Result (List ℕ)
unfolding put_opt put_all
put_ack_props props buf = do
  buf1 ← put_opt PropertyType.reason_string encode_string props.reason_string buf
  put_all PropertyType.user_prop encode_user_property props.user_properties buf1

unfoldable pub encode_ack_props : AckProperties → Result Blob
unfolding put_ack_props close_props
encode_ack_props props = put_ack_props props [] >>= close_props
