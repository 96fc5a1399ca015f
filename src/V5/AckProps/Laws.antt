-- ===== src/V5/AckProps/Laws.antt =====
-- The properties of an acknowledgement are read back as they were written.
use mymq.Base.{ℕ, ◌≤◌, false, List, [], ◌∷◌, ◌++◌, map, Option, none, some, length, ◌≡◌, refl, All}
use mymq.Error.{ok}
use mymq.Types.VarU32
use mymq.Types.Text.{encode_string, encode_user_property}
use mymq.V5.PropertyType
use mymq.V5.PropertyType.{PropertyType}
use mymq.V5.Property.{Property, encode_value, to_property_type}
use mymq.V5.Property.RoundTrip.{IsProperty}
use mymq.V5.Frame.{user_only}
use mymq.V5.Frame.Lists.{set_all}
use mymq.V5.Frame.Puts.{opt, Puts, both, put_opt-Puts, put_all-Puts}
use mymq.V5.Frame.Sets.{set_any, nothing_seen, set_last}
use mymq.V5.Frame.Whole.{PropBytes, props_bytes, PropField, prop_field}
use mymq.V5.AckProps.{
  AckProperties, default_props, set_prop, decode_ack_props, put_ack_props, encode_ack_props,
}

-- The properties in the order in which they are written.
abbrev pub listed : AckProperties → List Property
listed props =
    opt Property.reason_string props.reason_string ++ map Property.user_prop props.user_properties

-- What a list of properties must be to be written and read back: some, each with a value that can
-- be written, and not too much.
pub record IsProps (props : AckProperties) : Type 0 where
  pub good : All IsProperty (listed props)
  pub some_there : 1 ≤ length (listed props)
  pub short : (buf : List ℕ) → put_ack_props props [] ≡ ok buf → length buf ≤ VarU32.max_var_u32

puts : (props : AckProperties) → Puts (put_ack_props props) (listed props)
unfolding put_ack_props
puts props =
    let w2 =
      put_all-Puts Property.user_prop PropertyType.user_prop encode_user_property
        (λ v. unfold encode_value in refl) props.user_properties in
    both
      (put_opt-Puts Property.reason_string PropertyType.reason_string encode_string
        (λ v. unfold encode_value in refl) props.reason_string)
      w2

sets :
    (props : AckProperties)
    → set_all user_only set_prop (listed props) (λ m. false) default_props ≡ ok props
unfolding set_prop PropertyType.to_u32 to_property_type
sets props =
    let p1 = record default_props { reason_string = props.reason_string } in
    let s2 =
      set_last user_only set_prop (31 ∷ []) Property.user_prop props.user_properties
        (λ us. record p1 { user_properties = us }) (λ v. refl) (λ us v. refl) in
    let s1 =
      set_any user_only set_prop Property.reason_string props.reason_string
        (λ o. record default_props { reason_string = o }) 31 (λ v. refl) refl (λ v. refl) s2 in
    s1.at (λ m. false) nothing_seen

pub ack_props_bytes :
    (props : AckProperties) → IsProps props → PropBytes encode_ack_props decode_ack_props props
unfolding encode_ack_props decode_ack_props
ack_props_bytes props h =
    props_bytes user_only set_prop default_props props (puts props) h.good h.some_there h.short refl
      (sets props)

-- Properties that are there are some, since an empty list reads back as none.
abbrev pub IsOptProps : Option AckProperties → Type 0
IsOptProps none = Unit
IsOptProps (some props) = IsProps props

pub opt_ack_bytes :
    (o : Option AckProperties) → IsOptProps o → PropField encode_ack_props decode_ack_props o
opt_ack_bytes none h = prop_field none tt
opt_ack_bytes (some props) h = prop_field (some props) (ack_props_bytes props h)
