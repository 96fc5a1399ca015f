-- ===== src/V5/Connect/Will/Laws.antt =====
-- `WillProperties` is read back as it was written.
use mymq.Base.{ℕ, ◌≤◌, false, List, [], ◌∷◌, ◌++◌, map, Option, none, some, length, ◌≡◌, refl, All}
use mymq.Error.{ok}
use mymq.Types.U32
use mymq.Types.VarU32
use mymq.Types.Text.{encode_user_property, encode_string, encode_bytes}
use mymq.Types.Topic.{encode_name}
use mymq.V5.PayloadFormat.Laws.{
  format_opt, make_format, or_binary, or_binary-format_opt, put_format-Puts, set_format,
}
use mymq.V5.PropertyType
use mymq.V5.PropertyType.{PropertyType}
use mymq.V5.Property.{Property, encode_value, to_property_type}
use mymq.V5.Property.RoundTrip.{IsProperty}
use mymq.V5.Frame.{user_only}
use mymq.V5.Frame.Lists.{set_all}
use mymq.V5.Frame.Puts.{opt, Puts, both, put_opt-Puts, put_all-Puts}
use mymq.V5.Frame.Sets.{set_any, nothing_seen, set_last}
use mymq.V5.Frame.Whole.{PropBytes, props_bytes, PropField, prop_field}
use mymq.V5.Connect.Will.{
  WillProperties, default_props, set_prop, decode_will_props, put_will_props, encode_will_props,
}

-- The properties in the order in which they are written.
abbrev pub listed : WillProperties → List Property
listed props =
    opt Property.will_delay_interval props.will_delay_interval
    ++ (opt make_format (format_opt props.payload_format_indicator)
        ++ (opt Property.message_expiry_interval props.message_expiry_interval
            ++ (opt Property.content_type props.content_type
                ++ (opt Property.response_topic props.response_topic
                    ++ (opt Property.correlation_data props.correlation_data
                        ++ (map Property.user_prop props.user_properties))))))

-- What a list of properties must be to be written and read back: some, each with a value that can
-- be written, and not too much.
pub record IsProps (props : WillProperties) : Type 0 where
  pub good : All IsProperty (listed props)
  pub some_there : 1 ≤ length (listed props)
  pub short : (buf : List ℕ) → put_will_props props [] ≡ ok buf → length buf ≤ VarU32.max_var_u32

puts : (props : WillProperties) → Puts (put_will_props props) (listed props)
unfolding put_will_props
puts props =
    let w7 =
      put_all-Puts Property.user_prop PropertyType.user_prop encode_user_property
        (λ v. unfold encode_value in refl) props.user_properties in
    let w6 =
      both
        (put_opt-Puts Property.correlation_data PropertyType.correlation_data encode_bytes
          (λ v. unfold encode_value in refl) props.correlation_data)
        w7 in
    let w5 =
      both
        (put_opt-Puts Property.response_topic PropertyType.response_topic encode_name
          (λ v. unfold encode_value in refl) props.response_topic)
        w6 in
    let w4 =
      both
        (put_opt-Puts Property.content_type PropertyType.content_type encode_string
          (λ v. unfold encode_value in refl) props.content_type)
        w5 in
    let w3 =
      both
        (put_opt-Puts Property.message_expiry_interval PropertyType.message_expiry_interval
          U32.encode (λ v. unfold encode_value in refl) props.message_expiry_interval)
        w4 in
    let w2 = both (put_format-Puts props.payload_format_indicator) w3 in
    both
      (put_opt-Puts Property.will_delay_interval PropertyType.will_delay_interval U32.encode
        (λ v. unfold encode_value in refl) props.will_delay_interval)
      w2

sets :
    (props : WillProperties)
    → set_all user_only set_prop (listed props) (λ m. false) default_props ≡ ok props
unfolding set_prop PropertyType.to_u32 to_property_type
sets props =
    let p1 = record default_props { will_delay_interval = props.will_delay_interval } in
    let p2 = record p1 {
      payload_format_indicator = or_binary (format_opt props.payload_format_indicator);
    } in
    let p3 = record p2 { message_expiry_interval = props.message_expiry_interval } in
    let p4 = record p3 { content_type = props.content_type } in
    let p5 = record p4 { response_topic = props.response_topic } in
    let p6 = record p5 { correlation_data = props.correlation_data } in
    let s7 =
      set_last user_only set_prop (9 ∷ 8 ∷ 3 ∷ 2 ∷ 1 ∷ 24 ∷ []) Property.user_prop
        props.user_properties (λ us. record p6 { user_properties = us }) (λ v. refl)
        (λ us v. refl) in
    let s6 =
      set_any user_only set_prop Property.correlation_data props.correlation_data
        (λ o. record p5 { correlation_data = o }) 9 (λ v. refl) refl (λ v. refl) s7 in
    let s5 =
      set_any user_only set_prop Property.response_topic props.response_topic
        (λ o. record p4 { response_topic = o }) 8 (λ v. refl) refl (λ v. refl) s6 in
    let s4 =
      set_any user_only set_prop Property.content_type props.content_type
        (λ o. record p3 { content_type = o }) 3 (λ v. refl) refl (λ v. refl) s5 in
    let s3 =
      set_any user_only set_prop Property.message_expiry_interval props.message_expiry_interval
        (λ o. record p2 { message_expiry_interval = o }) 2 (λ v. refl) refl (λ v. refl) s4 in
    let s2 =
      set_any user_only set_prop make_format (format_opt props.payload_format_indicator)
        (λ o. record p1 { payload_format_indicator = or_binary o }) 1 (λ v. refl) refl
        (λ v. set_format v (λ b. record p1 { payload_format_indicator = b })) s3 in
    let s1 =
      set_any user_only set_prop Property.will_delay_interval props.will_delay_interval
        (λ o. record default_props { will_delay_interval = o }) 24 (λ v. refl) refl (λ v. refl)
        s2 in
    rw (or_binary-format_opt props.payload_format_indicator) at (s1.at (λ m. false) nothing_seen)

pub will_props_bytes :
    (props : WillProperties) → IsProps props → PropBytes encode_will_props decode_will_props props
unfolding encode_will_props decode_will_props
will_props_bytes props h =
    props_bytes user_only set_prop default_props props (puts props) h.good h.some_there h.short refl
      (sets props)

-- Properties that are there are some, since an empty list reads back as none.
abbrev pub IsOptProps : Option WillProperties → Type 0
IsOptProps none = Unit
IsOptProps (some props) = IsProps props

pub opt_will_props_bytes :
    (o : Option WillProperties) → IsOptProps o → PropField encode_will_props decode_will_props o
opt_will_props_bytes none h = prop_field none tt
opt_will_props_bytes (some props) h = prop_field (some props) (will_props_bytes props h)
