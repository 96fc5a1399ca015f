-- ===== src/V5/Subscribe/Props.antt =====
-- `SubscribeProperties` of sub.rs
pub mod Laws
pub mod Safe
use mymq.Base.{ℕ, Bool, List, [], ◌∷◌, ◌++◌, Option, none, some, ◌==◌, ◌||◌, if◌then◌else◌}
use mymq.Error.{Result, ok, err, protocol, ◌>>=◌}
use mymq.Types.Blob.{Blob, Decoder}
use mymq.Types.VarU32
use mymq.Types.Utf8.{Str}
use mymq.Types.Text.{UserProperty, encode_user_property}
use mymq.V5.PropertyType.{PropertyType}
use mymq.V5.Property.{Property}
use mymq.V5.Frame.{user_only, decode_props, put_opt, put_all, close_props}

pub record SubscribeProperties : Type 0 where
  pub subscription_id : Option ℕ
  pub user_properties : List UserProperty

abbrev pub default_props : SubscribeProperties
default_props = record { subscription_id = none; user_properties = [] }

-- The match on a property.
unfoldable pub set_prop : SubscribeProperties → Property → Result SubscribeProperties
set_prop props (Property.subscription_identifier val) =
    if val == 0 then err protocol else ok (record props { subscription_id = some val })
set_prop props (Property.user_prop val) =
    ok (record props { user_properties = props.user_properties ++ (val ∷ []) })
set_prop props property = err protocol

unfoldable pub decode_sub_props : Decoder SubscribeProperties
unfolding decode_props set_prop
decode_sub_props stream = decode_props user_only set_prop default_props stream

unfoldable pub put_sub_props : SubscribeProperties → List ℕ → Result (List ℕ)
unfolding put_opt put_all
put_sub_props props buf = do
  buf1 ← put_opt PropertyType.subscription_identifier VarU32.encode props.subscription_id buf
  put_all PropertyType.user_prop encode_user_property props.user_properties buf1

unfoldable pub encode_sub_props : SubscribeProperties → Result Blob
unfolding put_sub_props close_props
encode_sub_props props = put_sub_props props [] >>= close_props
