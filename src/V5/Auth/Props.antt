-- ===== src/V5/Auth/Props.antt =====
-- `AuthProperties` of auth.rs
pub mod Laws
pub mod Safe
use mymq.Base.{ℕ, List, [], ◌∷◌, ◌++◌, Option, none, some}
use mymq.Error.{Result, ok, err, protocol, ◌>>=◌}
use mymq.Types.Blob.{Blob, Decoder}
use mymq.Types.Utf8.{Str}
use mymq.Types.Text.{UserProperty, encode_string, encode_bytes, encode_user_property}
use mymq.V5.PropertyType.{PropertyType}
use mymq.V5.Property.{Property}
use mymq.V5.Frame.{user_only, decode_props, put_prop, put_opt, put_all, close_props}

pub record AuthProperties : Type 0 where
  pub authentication_method : Str
  pub authentication_data : List ℕ
  pub reason_string : Option Str
  pub user_properties : List UserProperty

-- The variables of the loop in `decode`.
pub record Draft : Type 0 where
  pub authentication_method : Option Str
  pub authentication_data : Option (List ℕ)
  pub reason_string : Option Str
  pub user_properties : List UserProperty

abbrev pub default_draft : Draft
default_draft = record {
  authentication_method = none;
  authentication_data = none;
  reason_string = none;
  user_properties = [];
}

-- The match on a property.
unfoldable pub set_prop : Draft → Property → Result Draft
set_prop draft (Property.authentication_method val) =
    ok (record draft { authentication_method = some val })
set_prop draft (Property.authentication_data val) =
    ok (record draft { authentication_data = some val })
set_prop draft (Property.reason_string val) = ok (record draft { reason_string = some val })
set_prop draft (Property.user_prop val) =
    ok (record draft { user_properties = draft.user_properties ++ (val ∷ []) })
set_prop draft property = err protocol

-- `match authentication_method`, and the same for the data.
abbrev required : {A : Type 0} → Option A → Result A
required none = err protocol
required (some val) = ok val

-- What stands behind the loop: the method and the data must be there.
unfoldable pub finish_draft : Draft → Result AuthProperties
finish_draft draft = do
  method ← required draft.authentication_method
  auth_bytes ← required draft.authentication_data
  ok (record {
    authentication_method = method;
    authentication_data = auth_bytes;
    reason_string = draft.reason_string;
    user_properties = draft.user_properties;
  })

unfoldable pub decode_auth_props : Decoder AuthProperties
unfolding decode_props set_prop finish_draft
decode_auth_props stream = do
  (draft, n) ← decode_props user_only set_prop default_draft stream
  props ← finish_draft draft
  ok (props, n)

unfoldable pub put_auth_props : AuthProperties → List ℕ → Result (List ℕ)
unfolding put_prop put_opt put_all
put_auth_props props buf = do
  buf1 ← put_prop PropertyType.authentication_method encode_string props.authentication_method buf
  buf2 ← put_prop PropertyType.authentication_data encode_bytes props.authentication_data buf1
  buf3 ← put_opt PropertyType.reason_string encode_string props.reason_string buf2
  put_all PropertyType.user_prop encode_user_property props.user_properties buf3

unfoldable pub encode_auth_props : AuthProperties → Result Blob
unfolding put_auth_props close_props
encode_auth_props props = put_auth_props props [] >>= close_props
