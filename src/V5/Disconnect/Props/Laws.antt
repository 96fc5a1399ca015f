-- ===== src/V5/Disconnect/Props/Laws.antt =====
-- `DisconnProperties` is read back as it was written.
use mymq.Base.{ℕ, ◌≤◌, false, List, [], ◌∷◌, ◌++◌, map, Option, none, some, length, ◌≡◌, refl, All}
use mymq.Error.{ok}
use mymq.Types.U32
use mymq.Types.VarU32
use mymq.Types.Text.{encode_user_property, encode_string}
use mymq.V5.PropertyType
use mymq.V5.PropertyType.{PropertyType}
use mymq.V5.Property.{Property, encode_value, to_property_type}
use mymq.V5.Property.RoundTrip.{IsProperty}
use mymq.V5.Frame.{user_only}
use mymq.V5.Frame.Lists.{set_all}
use mymq.V5.Frame.Puts.{opt, Puts, both, put_opt-Puts, put_all-Puts}
use mymq.V5.Frame.Sets.{set_any, nothing_seen, set_last}
use mymq.V5.Frame.Whole.{PropBytes, props_bytes, PropField, prop_field}
use mymq.V5.Disconnect.Props.{
  DisconnProperties, default_props, set_prop, decode_disconn_props, put_disconn_props,
  encode_disconn_props,
}

-- The properties in the order in which they are written.
abbrev pub listed : DisconnProperties → List Property
listed props =
    opt Property.session_expiry_interval props.session_expiry_interval
    ++ (opt Property.reason_string props.reason_string
        ++ (opt Property.server_reference props.server_reference
            ++ (map Property.user_prop props.user_properties)))

-- What a list of properties must be to be written and read back: some, each with a value that can
-- be written, and not too much.
pub record IsProps (props : DisconnProperties) : Type 0 where
  pub good : All IsProperty (listed props)
  pub some_there : 1 ≤ length (listed props)
  pub short : (buf : List ℕ) → put_disconn_props props [] ≡ ok buf → length buf ≤ VarU32.max_var_u32

puts : (props : DisconnProperties) → Puts (put_disconn_props props) (listed props)
unfolding put_disconn_props
puts props =
    let w4 =
      put_all-Puts Property.user_prop PropertyType.user_prop encode_user_property
        (λ v. unfold encode_value in refl) props.user_properties in
    let w3 =
      both
        (put_opt-Puts Property.server_reference PropertyType.server_reference encode_string
          (λ v. unfold encode_value in refl) props.server_reference)
        w4 in
    let w2 =
      both
        (put_opt-Puts Property.reason_string PropertyType.reason_string encode_string
          (λ v. unfold encode_value in refl) props.reason_string)
        w3 in
    both
      (put_opt-Puts Property.session_expiry_interval PropertyType.session_expiry_interval U32.encode
        (λ v. unfold encode_value in refl) props.session_expiry_interval)
      w2

sets :
    (props : DisconnProperties)
    → set_all user_only set_prop (listed props) (λ m. false) default_props ≡ ok props
unfolding set_prop PropertyType.to_u32 to_property_type
sets props =
    let p1 = record default_props { session_expiry_interval = props.session_expiry_interval } in
    let p2 = record p1 { reason_string = props.reason_string } in
    let p3 = record p2 { server_reference = props.server_reference } in
    let s4 =
      set_last user_only set_prop (28 ∷ 31 ∷ 17 ∷ []) Property.user_prop props.user_properties
        (λ us. record p3 { user_properties = us }) (λ v. refl) (λ us v. refl) in
    let s3 =
      set_any user_only set_prop Property.server_reference props.server_reference
        (λ o. record p2 { server_reference = o }) 28 (λ v. refl) refl (λ v. refl) s4 in
    let s2 =
      set_any user_only set_prop Property.reason_string props.reason_string
        (λ o. record p1 { reason_string = o }) 31 (λ v. refl) refl (λ v. refl) s3 in
    let s1 =
      set_any user_only set_prop Property.session_expiry_interval props.session_expiry_interval
        (λ o. record default_props { session_expiry_interval = o }) 17 (λ v. refl) refl (λ v. refl)
        s2 in
    s1.at (λ m. false) nothing_seen

pub disconn_props_bytes :
    (props : DisconnProperties)
    → IsProps props
    → PropBytes encode_disconn_props decode_disconn_props props
unfolding encode_disconn_props decode_disconn_props
disconn_props_bytes props h =
    props_bytes user_only set_prop default_props props (puts props) h.good h.some_there h.short refl
      (sets props)

-- Properties that are there are some, since an empty list reads back as none.
abbrev pub IsOptProps : Option DisconnProperties → Type 0
IsOptProps none = Unit
IsOptProps (some props) = IsProps props

pub opt_disconn_props_bytes :
    (o : Option DisconnProperties)
    → IsOptProps o
    → PropField encode_disconn_props decode_disconn_props o
opt_disconn_props_bytes none h = prop_field none tt
opt_disconn_props_bytes (some props) h = prop_field (some props) (disconn_props_bytes props h)
