-- ===== src/V5/Subscribe/Props/Laws.antt =====
-- `SubscribeProperties` is read back as it was written.
use mymq.Base.{
  ℕ, ◌≤◌, false, List, [], ◌∷◌, ◌++◌, map, Option, none, some, length, ◌==◌, ◌≡◌, refl, All, arith,
}
use mymq.Error.{ok}
use mymq.Types.VarU32
use mymq.Types.Text.{encode_user_property}
use mymq.V5.PropertyType
use mymq.V5.PropertyType.{PropertyType}
use mymq.V5.Property.{Property, encode_value, to_property_type}
use mymq.V5.Property.RoundTrip.{IsProperty}
use mymq.V5.Frame.{user_only}
use mymq.V5.Frame.Lists.{set_all}
use mymq.V5.Frame.Puts.{opt, Puts, both, put_opt-Puts, put_all-Puts}
use mymq.V5.Frame.Sets.{Holds, Holds-map, nothing_seen, set_opt, set_last}
use mymq.V5.Frame.Whole.{PropBytes, props_bytes, PropField, prop_field}
use mymq.V5.Subscribe.Props.{
  SubscribeProperties, default_props, set_prop, decode_sub_props, put_sub_props, encode_sub_props,
}

-- The properties in the order in which they are written.
abbrev pub listed : SubscribeProperties → List Property
listed props =
    opt Property.subscription_identifier props.subscription_id
    ++ (map Property.user_prop props.user_properties)

-- What a list of properties must be to be written and read back: some, each with a value that can
-- be written, numbers above zero where the code asks for them, and not too much.
pub record IsProps (props : SubscribeProperties) : Type 0 where
  pub good : All IsProperty (listed props)
  pub some_there : 1 ≤ length (listed props)
  pub subscription_id_pos : Holds (λ v. 1 ≤ v) props.subscription_id
  pub short : (buf : List ℕ) → put_sub_props props [] ≡ ok buf → length buf ≤ VarU32.max_var_u32

puts : (props : SubscribeProperties) → Puts (put_sub_props props) (listed props)
unfolding put_sub_props
puts props =
    let w2 =
      put_all-Puts Property.user_prop PropertyType.user_prop encode_user_property
        (λ v. unfold encode_value in refl) props.user_properties in
    both
      (put_opt-Puts Property.subscription_identifier PropertyType.subscription_identifier
        VarU32.encode (λ v. unfold encode_value in refl) props.subscription_id)
      w2

sets :
    (props : SubscribeProperties)
    → IsProps props
    → set_all user_only set_prop (listed props) (λ m. false) default_props ≡ ok props
unfolding set_prop PropertyType.to_u32 to_property_type
sets props h =
    let p1 = record default_props { subscription_id = props.subscription_id } in
    let s2 =
      set_last user_only set_prop (11 ∷ []) Property.user_prop props.user_properties
        (λ us. record p1 { user_properties = us }) (λ v. refl) (λ us v. refl) in
    let s1 =
      set_opt user_only set_prop Property.subscription_identifier props.subscription_id
        (λ o. record default_props { subscription_id = o }) 11 (λ v. refl) refl
        (Holds-map (λ v pos. let some_there : (v == 0) ≡ false = ground arith in rw some_there refl)
          props.subscription_id h.subscription_id_pos)
        s2 in
    s1.at (λ m. false) nothing_seen

pub sub_props_bytes :
    (props : SubscribeProperties)
    → IsProps props
    → PropBytes encode_sub_props decode_sub_props props
unfolding encode_sub_props decode_sub_props
sub_props_bytes props h =
    props_bytes user_only set_prop default_props props (puts props) h.good h.some_there h.short refl
      (sets props h)

-- Properties that are there are some, since an empty list reads back as none.
abbrev pub IsOptProps : Option SubscribeProperties → Type 0
IsOptProps none = Unit
IsOptProps (some props) = IsProps props

pub opt_sub_props_bytes :
    (o : Option SubscribeProperties) → IsOptProps o → PropField encode_sub_props decode_sub_props o
opt_sub_props_bytes none h = prop_field none tt
opt_sub_props_bytes (some props) h = prop_field (some props) (sub_props_bytes props h)
