-- ===== src/V5/Disconnect/Props.antt =====
-- `DisconnProperties` of disconnect.rs
pub mod Laws
pub mod Safe
use mymq.Base.{ℕ, Bool, List, [], ◌∷◌, ◌++◌, Option, none, some, ◌==◌, ◌||◌, if◌then◌else◌}
use mymq.Error.{Result, ok, err, protocol, ◌>>=◌}
use mymq.Types.Blob.{Blob, Decoder}
use mymq.Types.U32
use mymq.Types.Utf8.{Str}
use mymq.Types.Text.{UserProperty, encode_user_property, encode_string}
use mymq.V5.PropertyType.{PropertyType}
use mymq.V5.Property.{Property}
use mymq.V5.Frame.{user_only, decode_props, put_opt, put_all, close_props}

pub record DisconnProperties : Type 0 where
  pub session_expiry_interval : Option ℕ
  pub reason_string : Option Str
  pub server_reference : Option Str
  pub user_properties : List UserProperty

abbrev pub default_props : DisconnProperties
default_props = record {
  session_expiry_interval = none;
  reason_string = none;
  server_reference = none;
  user_properties = [];
}

-- The match on a property.
unfoldable pub set_prop : DisconnProperties → Property → Result DisconnProperties
set_prop props (Property.session_expiry_interval val) =
    ok (record props { session_expiry_interval = some val })
set_prop props (Property.reason_string val) = ok (record props { reason_string = some val })
set_prop props (Property.server_reference val) = ok (record props { server_reference = some val })
set_prop props (Property.user_prop val) =
    ok (record props { user_properties = props.user_properties ++ (val ∷ []) })
set_prop props property = err protocol

unfoldable pub decode_disconn_props : Decoder DisconnProperties
unfolding decode_props set_prop
decode_disconn_props stream = decode_props user_only set_prop default_props stream

unfoldable pub put_disconn_props : DisconnProperties → List ℕ → Result (List ℕ)
unfolding put_opt put_all
put_disconn_props props buf = do
  buf1 ← put_opt PropertyType.session_expiry_interval U32.encode props.session_expiry_interval buf
  buf2 ← put_opt PropertyType.reason_string encode_string props.reason_string buf1
  buf3 ← put_opt PropertyType.server_reference encode_string props.server_reference buf2
  put_all PropertyType.user_prop encode_user_property props.user_properties buf3

unfoldable pub encode_disconn_props : DisconnProperties → Result Blob
unfolding put_disconn_props close_props
encode_disconn_props props = put_disconn_props props [] >>= close_props
