-- ===== src/V5/Publish/Props/Laws.antt =====
-- `PublishProperties` is read back as it was written.
use mymq.Base.{
  ℕ, ◌≤◌, false, List, [], ◌∷◌, ◌++◌, map, Option, none, some, length, ◌==◌, ◌≡◌, refl, All, arith,
}
use mymq.Error.{ok}
use mymq.Types.U16
use mymq.Types.U32
use mymq.Types.VarU32
use mymq.Types.Text.{encode_user_property, encode_string, encode_bytes}
use mymq.Types.Topic.{encode_name}
use mymq.V5.PayloadFormat.Laws.{
  format_opt, make_format, or_binary, or_binary-format_opt, put_format-Puts, set_format,
}
use mymq.V5.PropertyType
use mymq.V5.PropertyType.{PropertyType}
use mymq.V5.Property.{Property, encode_value, to_property_type}
use mymq.V5.Property.RoundTrip.{IsProperty}
use mymq.V5.Frame.Lists.{set_all}
use mymq.V5.Frame.Puts.{opt, Puts, both, put_opt-Puts, put_all-Puts}
use mymq.V5.Frame.Sets.{set_any, Holds, Holds-map, nothing_seen, set_opt, set_many, set_last}
use mymq.V5.Frame.Whole.{PropBytes, props_bytes, PropField, prop_field}
use mymq.V5.Publish.Props.{
  PublishProperties, default_props, set_prop, decode_publish_props, put_publish_props,
  encode_publish_props, publish_dup_ok,
}

-- The properties in the order in which they are written.
abbrev pub listed : PublishProperties → List Property
listed props =
    opt make_format (format_opt props.payload_format_indicator)
    ++ (opt Property.message_expiry_interval props.message_expiry_interval
        ++ (opt Property.topic_alias props.topic_alias
            ++ (opt Property.response_topic props.response_topic
                ++ (opt Property.correlation_data props.correlation_data
                    ++ (opt Property.content_type props.content_type
                        ++ (map Property.subscription_identifier props.subscribtion_identifier
                            ++ (map Property.user_prop props.user_properties)))))))

-- What a list of properties must be to be written and read back: some, each with a value that can
-- be written, numbers above zero where the code asks for them, and not too much.
pub record IsProps (props : PublishProperties) : Type 0 where
  pub good : All IsProperty (listed props)
  pub some_there : 1 ≤ length (listed props)
  pub topic_alias_pos : Holds (λ v. 1 ≤ v) props.topic_alias
  pub short : (buf : List ℕ) → put_publish_props props [] ≡ ok buf → length buf ≤ VarU32.max_var_u32

puts : (props : PublishProperties) → Puts (put_publish_props props) (listed props)
unfolding put_publish_props
puts props =
    let w8 =
      put_all-Puts Property.user_prop PropertyType.user_prop encode_user_property
        (λ v. unfold encode_value in refl) props.user_properties in
    let w7 =
      both
        (put_all-Puts Property.subscription_identifier PropertyType.subscription_identifier
          VarU32.encode (λ v. unfold encode_value in refl) props.subscribtion_identifier)
        w8 in
    let w6 =
      both
        (put_opt-Puts Property.content_type PropertyType.content_type encode_string
          (λ v. unfold encode_value in refl) props.content_type)
        w7 in
    let w5 =
      both
        (put_opt-Puts Property.correlation_data PropertyType.correlation_data encode_bytes
          (λ v. unfold encode_value in refl) props.correlation_data)
        w6 in
    let w4 =
      both
        (put_opt-Puts Property.response_topic PropertyType.response_topic encode_name
          (λ v. unfold encode_value in refl) props.response_topic)
        w5 in
    let w3 =
      both
        (put_opt-Puts Property.topic_alias PropertyType.topic_alias U16.encode
          (λ v. unfold encode_value in refl) props.topic_alias)
        w4 in
    let w2 =
      both
        (put_opt-Puts Property.message_expiry_interval PropertyType.message_expiry_interval
          U32.encode (λ v. unfold encode_value in refl) props.message_expiry_interval)
        w3 in
    both (put_format-Puts props.payload_format_indicator) w2

sets :
    (props : PublishProperties)
    → IsProps props
    → set_all publish_dup_ok set_prop (listed props) (λ m. false) default_props ≡ ok props
unfolding set_prop PropertyType.to_u32 to_property_type
sets props h =
    let p1 = record default_props {
      payload_format_indicator = or_binary (format_opt props.payload_format_indicator);
    } in
    let p2 = record p1 { message_expiry_interval = props.message_expiry_interval } in
    let p3 = record p2 { topic_alias = props.topic_alias } in
    let p4 = record p3 { response_topic = props.response_topic } in
    let p5 = record p4 { correlation_data = props.correlation_data } in
    let p6 = record p5 { content_type = props.content_type } in
    let p7 = record p6 { subscribtion_identifier = props.subscribtion_identifier } in
    let s8 =
      set_last publish_dup_ok set_prop (11 ∷ 3 ∷ 9 ∷ 8 ∷ 35 ∷ 2 ∷ 1 ∷ []) Property.user_prop
        props.user_properties (λ us. record p7 { user_properties = us }) (λ v. refl)
        (λ us v. refl) in
    let s7 =
      set_many publish_dup_ok set_prop Property.subscription_identifier
        props.subscribtion_identifier [] (λ o. record p6 { subscribtion_identifier = o }) 11
        (λ v. refl) refl (λ vs v. refl) s8 in
    let s6 =
      set_any publish_dup_ok set_prop Property.content_type props.content_type
        (λ o. record p5 { content_type = o }) 3 (λ v. refl) refl (λ v. refl) s7 in
    let s5 =
      set_any publish_dup_ok set_prop Property.correlation_data props.correlation_data
        (λ o. record p4 { correlation_data = o }) 9 (λ v. refl) refl (λ v. refl) s6 in
    let s4 =
      set_any publish_dup_ok set_prop Property.response_topic props.response_topic
        (λ o. record p3 { response_topic = o }) 8 (λ v. refl) refl (λ v. refl) s5 in
    let s3 =
      set_opt publish_dup_ok set_prop Property.topic_alias props.topic_alias
        (λ o. record p2 { topic_alias = o }) 35 (λ v. refl) refl
        (Holds-map (λ v pos. let some_there : (v == 0) ≡ false = ground arith in rw some_there refl)
          props.topic_alias h.topic_alias_pos)
        s4 in
    let s2 =
      set_any publish_dup_ok set_prop Property.message_expiry_interval props.message_expiry_interval
        (λ o. record p1 { message_expiry_interval = o }) 2 (λ v. refl) refl (λ v. refl) s3 in
    let s1 =
      set_any publish_dup_ok set_prop make_format (format_opt props.payload_format_indicator)
        (λ o. record default_props { payload_format_indicator = or_binary o }) 1 (λ v. refl) refl
        (λ v. set_format v (λ b. record default_props { payload_format_indicator = b })) s2 in
    rw (or_binary-format_opt props.payload_format_indicator) at (s1.at (λ m. false) nothing_seen)

pub publish_props_bytes :
    (props : PublishProperties)
    → IsProps props
    → PropBytes encode_publish_props decode_publish_props props
unfolding encode_publish_props decode_publish_props
publish_props_bytes props h =
    props_bytes publish_dup_ok set_prop default_props props (puts props) h.good h.some_there h.short
      refl (sets props h)

-- Properties that are there are some, since an empty list reads back as none.
abbrev pub IsOptProps : Option PublishProperties → Type 0
IsOptProps none = Unit
IsOptProps (some props) = IsProps props

pub opt_publish_props_bytes :
    (o : Option PublishProperties)
    → IsOptProps o
    → PropField encode_publish_props decode_publish_props o
opt_publish_props_bytes none h = prop_field none tt
opt_publish_props_bytes (some props) h = prop_field (some props) (publish_props_bytes props h)
