-- ===== src/V5/UnSubscribe/Props.antt =====
-- `UnSubscribeProperties` of unsub.rs
pub mod Laws
pub mod Safe
use mymq.Base.{ℕ, Bool, List, [], ◌∷◌, ◌++◌, Option, none, some, ◌==◌, ◌||◌, if◌then◌else◌}
use mymq.Error.{Result, ok, err, protocol, ◌>>=◌}
use mymq.Types.Blob.{Blob, Decoder}
use mymq.Types.Utf8.{Str}
use mymq.Types.Text.{UserProperty, encode_user_property}
use mymq.V5.PropertyType.{PropertyType}
use mymq.V5.Property.{Property}
use mymq.V5.Frame.{user_only, decode_props, put_opt, put_all, close_props}

pub record UnSubscribeProperties : Type 0 where
  pub user_properties : List UserProperty

abbrev pub default_props : UnSubscribeProperties
default_props = record { user_properties = [] }

-- The match on a property.
unfoldable pub set_prop : UnSubscribeProperties → Property → Result UnSubscribeProperties
set_prop props (Property.user_prop val) =
    ok (record props { user_properties = props.user_properties ++ (val ∷ []) })
set_prop props property = err protocol

unfoldable pub decode_unsub_props : Decoder UnSubscribeProperties
unfolding decode_props set_prop
decode_unsub_props stream = decode_props user_only set_prop default_props stream

unfoldable pub put_unsub_props : UnSubscribeProperties → List ℕ → Result (List ℕ)
unfolding put_opt put_all
put_unsub_props props buf = do
  put_all PropertyType.user_prop encode_user_property props.user_properties buf

unfoldable pub encode_unsub_props : UnSubscribeProperties → Result Blob
unfolding put_unsub_props close_props
encode_unsub_props props = put_unsub_props props [] >>= close_props
