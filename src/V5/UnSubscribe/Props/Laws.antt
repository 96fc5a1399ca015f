-- ===== src/V5/UnSubscribe/Props/Laws.antt =====
-- `UnSubscribeProperties` is read back as it was written.
use mymq.Base.{ℕ, ◌≤◌, false, List, [], map, Option, none, some, length, ◌≡◌, refl, All}
use mymq.Error.{ok}
use mymq.Types.VarU32
use mymq.Types.Text.{encode_user_property}
use mymq.V5.PropertyType
use mymq.V5.PropertyType.{PropertyType}
use mymq.V5.Property.{Property, encode_value, to_property_type}
use mymq.V5.Property.RoundTrip.{IsProperty}
use mymq.V5.Frame.{user_only}
use mymq.V5.Frame.Lists.{set_all}
use mymq.V5.Frame.Puts.{Puts, put_all-Puts}
use mymq.V5.Frame.Sets.{nothing_seen, set_last}
use mymq.V5.Frame.Whole.{PropBytes, props_bytes, PropField, prop_field}
use mymq.V5.UnSubscribe.Props.{
  UnSubscribeProperties, default_props, set_prop, decode_unsub_props, put_unsub_props,
  encode_unsub_props,
}

-- The properties in the order in which they are written.
abbrev pub listed : UnSubscribeProperties → List Property
listed props = map Property.user_prop props.user_properties

-- What a list of properties must be to be written and read back: some, each with a value that can
-- be written, and not too much.
pub record IsProps (props : UnSubscribeProperties) : Type 0 where
  pub good : All IsProperty (listed props)
  pub some_there : 1 ≤ length (listed props)
  pub short : (buf : List ℕ) → put_unsub_props props [] ≡ ok buf → length buf ≤ VarU32.max_var_u32

puts : (props : UnSubscribeProperties) → Puts (put_unsub_props props) (listed props)
unfolding put_unsub_props
puts props =
    (put_all-Puts Property.user_prop PropertyType.user_prop encode_user_property
      (λ v. unfold encode_value in refl) props.user_properties)

sets :
    (props : UnSubscribeProperties)
    → set_all user_only set_prop (listed props) (λ m. false) default_props ≡ ok props
unfolding set_prop PropertyType.to_u32 to_property_type
sets props =
    let s1 =
      set_last user_only set_prop [] Property.user_prop props.user_properties
        (λ us. record default_props { user_properties = us }) (λ v. refl) (λ us v. refl) in
    s1.at (λ m. false) nothing_seen

pub unsub_props_bytes :
    (props : UnSubscribeProperties)
    → IsProps props
    → PropBytes encode_unsub_props decode_unsub_props props
unfolding encode_unsub_props decode_unsub_props
unsub_props_bytes props h =
    props_bytes user_only set_prop default_props props (puts props) h.good h.some_there h.short refl
      (sets props)

-- Properties that are there are some, since an empty list reads back as none.
abbrev pub IsOptProps : Option UnSubscribeProperties → Type 0
IsOptProps none = Unit
IsOptProps (some props) = IsProps props

pub opt_unsub_props_bytes :
    (o : Option UnSubscribeProperties)
    → IsOptProps o
    → PropField encode_unsub_props decode_unsub_props o
opt_unsub_props_bytes none h = prop_field none tt
opt_unsub_props_bytes (some props) h = prop_field (some props) (unsub_props_bytes props h)
