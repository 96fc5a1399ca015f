-- ===== src/V5/ConnAck/Props/Laws.antt =====
-- `ConnAckProperties` is read back as it was written.
use mymq.Base.{
  ℕ, ◌≤◌, false, List, [], ◌∷◌, Option, none, some, length, ◌==◌, ◌≡◌, refl, All, arith,
}
use mymq.Error.{ok}
use mymq.Types.VarU32
use mymq.V5.Flag.{bit}
use mymq.V5.Flag.Laws.{set_flag}
use mymq.V5.PropertyType
use mymq.V5.PropertyType.{PropertyType}
use mymq.V5.Property.{Property, to_property_type}
use mymq.V5.Property.RoundTrip.{IsProperty}
use mymq.V5.Frame.{user_only}
use mymq.V5.Frame.Lists.{set_all}
use mymq.V5.Frame.Sets.{set_any, Holds, Holds-map, nothing_seen, set_opt, set_last}
use mymq.V5.Frame.Whole.{PropBytes, props_bytes, PropField, prop_field}
use mymq.V5.ConnAck.Props.Listed.{listed, puts}
use mymq.V5.ConnAck.Props.{
  ConnAckProperties, default_props, set_prop, decode_connack_props, put_connack_props,
  encode_connack_props,
}

-- What a list of properties must be to be written and read back: some, each with a value that can
-- be written, numbers above zero where the code asks for them, and not too much.
pub record IsProps (props : ConnAckProperties) : Type 0 where
  pub good : All IsProperty (listed props)
  pub some_there : 1 ≤ length (listed props)
  pub receive_maximum_pos : Holds (λ v. 1 ≤ v) props.receive_maximum
  pub max_packet_size_pos : Holds (λ v. 1 ≤ v) props.max_packet_size
  pub short : (buf : List ℕ) → put_connack_props props [] ≡ ok buf → length buf ≤ VarU32.max_var_u32

sets :
    (props : ConnAckProperties)
    → IsProps props
    → set_all user_only set_prop (listed props) (λ m. false) default_props ≡ ok props
unfolding set_prop PropertyType.to_u32 to_property_type
sets props h =
    let p1 = record default_props { session_expiry_interval = props.session_expiry_interval } in
    let p2 = record p1 { receive_maximum = props.receive_maximum } in
    let p3 = record p2 { maximum_qos = props.maximum_qos } in
    let p4 = record p3 { retain_available = props.retain_available } in
    let p5 = record p4 { max_packet_size = props.max_packet_size } in
    let p6 = record p5 { assigned_client_identifier = props.assigned_client_identifier } in
    let p7 = record p6 { topic_alias_max = props.topic_alias_max } in
    let p8 = record p7 { reason_string = props.reason_string } in
    let p9 = record p8 {
      wildcard_subscription_available = props.wildcard_subscription_available;
    } in
    let p10 = record p9 {
      subscription_identifiers_available = props.subscription_identifiers_available;
    } in
    let p11 = record p10 { shared_subscription_available = props.shared_subscription_available } in
    let p12 = record p11 { server_keep_alive = props.server_keep_alive } in
    let p13 = record p12 { response_information = props.response_information } in
    let p14 = record p13 { server_reference = props.server_reference } in
    let p15 = record p14 { authentication_method = props.authentication_method } in
    let p16 = record p15 { authentication_data = props.authentication_data } in
    let s17 =
      set_last user_only set_prop
        (22 ∷ 21 ∷ 28 ∷ 26 ∷ 19 ∷ 42 ∷ 41 ∷ 40 ∷ 31 ∷ 34 ∷ 18 ∷ 39 ∷ 37 ∷ 36 ∷ 33 ∷ 17 ∷ [])
        Property.user_prop props.user_properties (λ us. record p16 { user_properties = us })
        (λ v. refl) (λ us v. refl) in
    let s16 =
      set_any user_only set_prop Property.authentication_data props.authentication_data
        (λ o. record p15 { authentication_data = o }) 22 (λ v. refl) refl (λ v. refl) s17 in
    let s15 =
      set_any user_only set_prop Property.authentication_method props.authentication_method
        (λ o. record p14 { authentication_method = o }) 21 (λ v. refl) refl (λ v. refl) s16 in
    let s14 =
      set_any user_only set_prop Property.server_reference props.server_reference
        (λ o. record p13 { server_reference = o }) 28 (λ v. refl) refl (λ v. refl) s15 in
    let s13 =
      set_any user_only set_prop Property.response_information props.response_information
        (λ o. record p12 { response_information = o }) 26 (λ v. refl) refl (λ v. refl) s14 in
    let s12 =
      set_any user_only set_prop Property.server_keep_alive props.server_keep_alive
        (λ o. record p11 { server_keep_alive = o }) 19 (λ v. refl) refl (λ v. refl) s13 in
    let s11 =
      set_any user_only set_prop (λ flag. Property.shared_subscription_available (bit flag))
        props.shared_subscription_available (λ o. record p10 { shared_subscription_available = o })
        42 (λ v. refl) refl
        (λ v. set_flag v (λ b. record p10 { shared_subscription_available = some b })) s12 in
    let s10 =
      set_any user_only set_prop (λ flag. Property.subscription_identifier_available (bit flag))
        props.subscription_identifiers_available
        (λ o. record p9 { subscription_identifiers_available = o }) 41 (λ v. refl) refl
        (λ v. set_flag v (λ b. record p9 { subscription_identifiers_available = some b })) s11 in
    let s9 =
      set_any user_only set_prop (λ flag. Property.wildcard_subscription_available (bit flag))
        props.wildcard_subscription_available
        (λ o. record p8 { wildcard_subscription_available = o }) 40 (λ v. refl) refl
        (λ v. set_flag v (λ b. record p8 { wildcard_subscription_available = some b })) s10 in
    let s8 =
      set_any user_only set_prop Property.reason_string props.reason_string
        (λ o. record p7 { reason_string = o }) 31 (λ v. refl) refl (λ v. refl) s9 in
    let s7 =
      set_any user_only set_prop Property.topic_alias_maximum props.topic_alias_max
        (λ o. record p6 { topic_alias_max = o }) 34 (λ v. refl) refl (λ v. refl) s8 in
    let s6 =
      set_any user_only set_prop Property.assigned_client_identifier
        props.assigned_client_identifier (λ o. record p5 { assigned_client_identifier = o }) 18
        (λ v. refl) refl (λ v. refl) s7 in
    let s5 =
      set_opt user_only set_prop Property.maximum_packet_size props.max_packet_size
        (λ o. record p4 { max_packet_size = o }) 39 (λ v. refl) refl
        (Holds-map (λ v pos. let some_there : (v == 0) ≡ false = ground arith in rw some_there refl)
          props.max_packet_size h.max_packet_size_pos)
        s6 in
    let s4 =
      set_any user_only set_prop (λ flag. Property.retain_available (bit flag))
        props.retain_available (λ o. record p3 { retain_available = o }) 37 (λ v. refl) refl
        (λ v. set_flag v (λ b. record p3 { retain_available = some b })) s5 in
    let s3 =
      set_any user_only set_prop Property.maximum_qos props.maximum_qos
        (λ o. record p2 { maximum_qos = o }) 36 (λ v. refl) refl (λ v. refl) s4 in
    let s2 =
      set_opt user_only set_prop Property.receive_maximum props.receive_maximum
        (λ o. record p1 { receive_maximum = o }) 33 (λ v. refl) refl
        (Holds-map (λ v pos. let some_there : (v == 0) ≡ false = ground arith in rw some_there refl)
          props.receive_maximum h.receive_maximum_pos)
        s3 in
    let s1 =
      set_any user_only set_prop Property.session_expiry_interval props.session_expiry_interval
        (λ o. record default_props { session_expiry_interval = o }) 17 (λ v. refl) refl (λ v. refl)
        s2 in
    s1.at (λ m. false) nothing_seen

pub connack_props_bytes :
    (props : ConnAckProperties)
    → IsProps props
    → PropBytes encode_connack_props decode_connack_props props
unfolding encode_connack_props decode_connack_props
connack_props_bytes props h =
    props_bytes user_only set_prop default_props props (puts props) h.good h.some_there h.short refl
      (sets props h)

-- Properties that are there are some, since an empty list reads back as none.
abbrev pub IsOptProps : Option ConnAckProperties → Type 0
IsOptProps none = Unit
IsOptProps (some props) = IsProps props

pub opt_connack_props_bytes :
    (o : Option ConnAckProperties)
    → IsOptProps o
    → PropField encode_connack_props decode_connack_props o
opt_connack_props_bytes none h = prop_field none tt
opt_connack_props_bytes (some props) h = prop_field (some props) (connack_props_bytes props h)
