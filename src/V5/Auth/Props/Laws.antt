-- ===== src/V5/Auth/Props/Laws.antt =====
-- `AuthProperties` is read back as it was written.
use mymq.Base.{
  ℕ, ◌≤◌, false, List, [], ◌∷◌, ◌++◌, map, Option, none, some, length, ◌≡◌, refl, arith, All,
}
use mymq.Error.{ok, ◌>>=◌}
use mymq.Types.VarU32
use mymq.Types.Text.{encode_string, encode_bytes, encode_user_property}
use mymq.V5.PropertyType
use mymq.V5.PropertyType.{PropertyType}
use mymq.V5.Property.{Property, encode_value, to_property_type}
use mymq.V5.Property.RoundTrip.{IsProperty}
use mymq.V5.Frame.{user_only, close_props}
use mymq.V5.Frame.Lists.{set_all}
use mymq.V5.Frame.Puts.{opt, Puts, both, put_prop-Puts, put_opt-Puts, put_all-Puts}
use mymq.V5.Frame.Sets.{set_any, nothing_seen, set_opt, set_last}
use mymq.V5.Frame.Whole.{PropBytes, props_bytes, PropField, prop_field}
use mymq.V5.Auth.Props.{
  AuthProperties, Draft, default_draft, set_prop, decode_auth_props, put_auth_props,
  encode_auth_props,
}

-- The properties in the order in which they are written.
abbrev pub listed : AuthProperties → List Property
listed props =
    Property.authentication_method props.authentication_method
    ∷ Property.authentication_data props.authentication_data
    ∷ (opt Property.reason_string props.reason_string
        ++ map Property.user_prop props.user_properties)

-- What a list of properties must be to be written and read back: values that can be written, and
-- not too much.
pub record IsProps (props : AuthProperties) : Type 0 where
  pub good : All IsProperty (listed props)
  pub short : (buf : List ℕ) → put_auth_props props [] ≡ ok buf → length buf ≤ VarU32.max_var_u32

puts : (props : AuthProperties) → Puts (put_auth_props props) (listed props)
unfolding put_auth_props
puts props =
    let w4 =
      put_all-Puts Property.user_prop PropertyType.user_prop encode_user_property
        (λ v. unfold encode_value in refl) props.user_properties in
    let w3 =
      both
        (put_opt-Puts Property.reason_string PropertyType.reason_string encode_string
          (λ v. unfold encode_value in refl) props.reason_string)
        w4 in
    let w2 =
      both
        (put_prop-Puts Property.authentication_data PropertyType.authentication_data encode_bytes
          (λ v. unfold encode_value in refl) props.authentication_data)
        w3 in
    both
      (put_prop-Puts Property.authentication_method PropertyType.authentication_method encode_string
        (λ v. unfold encode_value in refl) props.authentication_method)
      w2

abbrev draft_of : AuthProperties → Draft
draft_of props = record {
  authentication_method = some props.authentication_method;
  authentication_data = some props.authentication_data;
  reason_string = props.reason_string;
  user_properties = props.user_properties;
}

sets :
    (props : AuthProperties)
    → set_all user_only set_prop (listed props) (λ m. false) default_draft ≡ ok (draft_of props)
unfolding set_prop PropertyType.to_u32 to_property_type
sets props =
    let p1 = record default_draft { authentication_method = (some props.authentication_method) } in
    let p2 = record p1 { authentication_data = (some props.authentication_data) } in
    let p3 = record p2 { reason_string = props.reason_string } in
    let s4 =
      set_last user_only set_prop (31 ∷ 22 ∷ 21 ∷ []) Property.user_prop props.user_properties
        (λ us. record p3 { user_properties = us }) (λ v. refl) (λ us v. refl) in
    let s3 =
      set_any user_only set_prop Property.reason_string props.reason_string
        (λ o. record p2 { reason_string = o }) 31 (λ v. refl) refl (λ v. refl) s4 in
    let s2 =
      set_opt user_only set_prop Property.authentication_data (some props.authentication_data)
        (λ o. record p1 { authentication_data = o }) 22 (λ v. refl) refl refl s3 in
    let s1 =
      set_opt user_only set_prop Property.authentication_method (some props.authentication_method)
        (λ o. record default_draft { authentication_method = o }) 21 (λ v. refl) refl refl s2 in
    s1.at (λ m. false) nothing_seen

pub auth_props_bytes :
    (props : AuthProperties) → IsProps props → PropBytes encode_auth_props decode_auth_props props
auth_props_bytes props h =
    let pb =
      props_bytes {enc = λ draft. put_auth_props props [] >>= close_props} user_only set_prop
        default_draft (draft_of props) (puts props) h.good (omega arith) h.short refl
        (sets props) in
    record {
      bytes = pb.bytes;
      some_there = pb.some_there;
      fits = pb.fits;
      writes = unfold encode_auth_props in pb.writes;
      reads = record { at = λ rest. unfold decode_auth_props in rw (pb.reads.at rest) refl };
    }

-- The properties may be missing as a whole.
abbrev pub IsOptProps : Option AuthProperties → Type 0
IsOptProps none = Unit
IsOptProps (some props) = IsProps props

pub opt_auth_props_bytes :
    (o : Option AuthProperties) → IsOptProps o → PropField encode_auth_props decode_auth_props o
opt_auth_props_bytes none h = prop_field none tt
opt_auth_props_bytes (some props) h = prop_field (some props) (auth_props_bytes props h)
