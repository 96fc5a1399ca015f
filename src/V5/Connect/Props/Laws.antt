-- ===== src/V5/Connect/Props/Laws.antt =====
-- `ConnectProperties` is read back as it was written.
use mymq.Base.{
  ℕ, ◌≤◌, false, List, [], ◌∷◌, ◌++◌, map, Option, none, some, length, ◌==◌, ◌≡◌, refl, All, arith,
}
use mymq.Error.{ok}
use mymq.Types.U16
use mymq.Types.U32
use mymq.Types.VarU32
use mymq.Types.Text.{encode_user_property, encode_string, encode_bytes}
use mymq.V5.Flag.{enc_bool, bit}
use mymq.V5.Flag.Laws.{set_flag}
use mymq.V5.PropertyType
use mymq.V5.PropertyType.{PropertyType}
use mymq.V5.Property.{Property, encode_value, to_property_type, enc_prop}
use mymq.V5.Property.RoundTrip.{IsProperty}
use mymq.V5.Frame.{user_only}
use mymq.V5.Frame.Lists.{set_all}
use mymq.V5.Frame.Puts.{opt, Puts, both, put_opt-Puts, put_all-Puts}
use mymq.V5.Frame.Sets.{set_any, Holds, Holds-map, nothing_seen, set_opt, set_last}
use mymq.V5.Frame.Whole.{PropBytes, props_bytes, PropField, prop_field}
use mymq.V5.Connect.Props.{
  ConnectProperties, default_props, set_prop, decode_connect_props, put_connect_props,
  encode_connect_props,
}

-- The properties in the order in which they are written.
abbrev pub listed : ConnectProperties → List Property
listed props =
    opt Property.session_expiry_interval props.session_expiry_interval
    ++ (opt Property.receive_maximum props.receive_maximum
        ++ (opt Property.maximum_packet_size props.max_packet_size
            ++ (opt Property.topic_alias_maximum props.topic_alias_max
                ++ (opt (λ flag. Property.request_response_information (bit flag))
                      props.request_response_info
                    ++ (opt (λ flag. Property.request_problem_information (bit flag))
                          props.request_problem_info
                        ++ (opt Property.authentication_method props.authentication_method
                            ++ (opt Property.authentication_data props.authentication_data
                                ++ (map Property.user_prop props.user_properties))))))))

-- What a list of properties must be to be written and read back: some, each with a value that can
-- be written, numbers above zero where the code asks for them, and not too much.
pub record IsProps (props : ConnectProperties) : Type 0 where
  pub good : All IsProperty (listed props)
  pub some_there : 1 ≤ length (listed props)
  pub receive_maximum_pos : Holds (λ v. 1 ≤ v) props.receive_maximum
  pub max_packet_size_pos : Holds (λ v. 1 ≤ v) props.max_packet_size
  pub short : (buf : List ℕ) → put_connect_props props [] ≡ ok buf → length buf ≤ VarU32.max_var_u32

puts : (props : ConnectProperties) → Puts (put_connect_props props) (listed props)
unfolding put_connect_props
puts props =
    let w9 =
      put_all-Puts Property.user_prop PropertyType.user_prop encode_user_property
        (λ v. unfold encode_value in refl) props.user_properties in
    let w8 =
      both
        (put_opt-Puts Property.authentication_data PropertyType.authentication_data encode_bytes
          (λ v. unfold encode_value in refl) props.authentication_data)
        w9 in
    let w7 =
      both
        (put_opt-Puts Property.authentication_method PropertyType.authentication_method
          encode_string (λ v. unfold encode_value in refl) props.authentication_method)
        w8 in
    let w6 =
      both
        (put_opt-Puts (λ flag. Property.request_problem_information (bit flag))
          PropertyType.request_problem_information enc_bool
          (λ v. unfold encode_value enc_prop enc_bool in refl) props.request_problem_info)
        w7 in
    let w5 =
      both
        (put_opt-Puts (λ flag. Property.request_response_information (bit flag))
          PropertyType.request_response_information enc_bool
          (λ v. unfold encode_value enc_prop enc_bool in refl) props.request_response_info)
        w6 in
    let w4 =
      both
        (put_opt-Puts Property.topic_alias_maximum PropertyType.topic_alias_maximum U16.encode
          (λ v. unfold encode_value in refl) props.topic_alias_max)
        w5 in
    let w3 =
      both
        (put_opt-Puts Property.maximum_packet_size PropertyType.maximum_packet_size U32.encode
          (λ v. unfold encode_value in refl) props.max_packet_size)
        w4 in
    let w2 =
      both
        (put_opt-Puts Property.receive_maximum PropertyType.receive_maximum U16.encode
          (λ v. unfold encode_value in refl) props.receive_maximum)
        w3 in
    both
      (put_opt-Puts Property.session_expiry_interval PropertyType.session_expiry_interval U32.encode
        (λ v. unfold encode_value in refl) props.session_expiry_interval)
      w2

sets :
    (props : ConnectProperties)
    → IsProps props
    → set_all user_only set_prop (listed props) (λ m. false) default_props ≡ ok props
unfolding set_prop PropertyType.to_u32 to_property_type
sets props h =
    let p1 = record default_props { session_expiry_interval = props.session_expiry_interval } in
    let p2 = record p1 { receive_maximum = props.receive_maximum } in
    let p3 = record p2 { max_packet_size = props.max_packet_size } in
    let p4 = record p3 { topic_alias_max = props.topic_alias_max } in
    let p5 = record p4 { request_response_info = props.request_response_info } in
    let p6 = record p5 { request_problem_info = props.request_problem_info } in
    let p7 = record p6 { authentication_method = props.authentication_method } in
    let p8 = record p7 { authentication_data = props.authentication_data } in
    let s9 =
      set_last user_only set_prop (22 ∷ 21 ∷ 23 ∷ 25 ∷ 34 ∷ 39 ∷ 33 ∷ 17 ∷ []) Property.user_prop
        props.user_properties (λ us. record p8 { user_properties = us }) (λ v. refl)
        (λ us v. refl) in
    let s8 =
      set_any user_only set_prop Property.authentication_data props.authentication_data
        (λ o. record p7 { authentication_data = o }) 22 (λ v. refl) refl (λ v. refl) s9 in
    let s7 =
      set_any user_only set_prop Property.authentication_method props.authentication_method
        (λ o. record p6 { authentication_method = o }) 21 (λ v. refl) refl (λ v. refl) s8 in
    let s6 =
      set_any user_only set_prop (λ flag. Property.request_problem_information (bit flag))
        props.request_problem_info (λ o. record p5 { request_problem_info = o }) 23 (λ v. refl) refl
        (λ v. set_flag v (λ b. record p5 { request_problem_info = some b })) s7 in
    let s5 =
      set_any user_only set_prop (λ flag. Property.request_response_information (bit flag))
        props.request_response_info (λ o. record p4 { request_response_info = o }) 25 (λ v. refl)
        refl (λ v. set_flag v (λ b. record p4 { request_response_info = some b })) s6 in
    let s4 =
      set_any user_only set_prop Property.topic_alias_maximum props.topic_alias_max
        (λ o. record p3 { topic_alias_max = o }) 34 (λ v. refl) refl (λ v. refl) s5 in
    let s3 =
      set_opt user_only set_prop Property.maximum_packet_size props.max_packet_size
        (λ o. record p2 { max_packet_size = o }) 39 (λ v. refl) refl
        (Holds-map (λ v pos. let some_there : (v == 0) ≡ false = ground arith in rw some_there refl)
          props.max_packet_size h.max_packet_size_pos)
        s4 in
    let s2 =
      set_opt user_only set_prop Property.receive_maximum props.receive_maximum
        (λ o. record p1 { receive_maximum = o }) 33 (λ v. refl) refl
        (Holds-map (λ v pos. let some_there : (v == 0) ≡ false = ground arith in rw some_there refl)
          props.receive_maximum h.receive_maximum_pos)
        s3 in
    let s1 =
      set_any user_only set_prop Property.session_expiry_interval props.session_expiry_interval
        (λ o. record default_props { session_expiry_interval = o }) 17 (λ v. refl) refl (λ v. refl)
        s2 in
    s1.at (λ m. false) nothing_seen

pub connect_props_bytes :
    (props : ConnectProperties)
    → IsProps props
    → PropBytes encode_connect_props decode_connect_props props
unfolding encode_connect_props decode_connect_props
connect_props_bytes props h =
    props_bytes user_only set_prop default_props props (puts props) h.good h.some_there h.short refl
      (sets props h)

-- Properties that are there are some, since an empty list reads back as none.
abbrev pub IsOptProps : Option ConnectProperties → Type 0
IsOptProps none = Unit
IsOptProps (some props) = IsProps props

pub opt_connect_props_bytes :
    (o : Option ConnectProperties)
    → IsOptProps o
    → PropField encode_connect_props decode_connect_props o
opt_connect_props_bytes none h = prop_field none tt
opt_connect_props_bytes (some props) h = prop_field (some props) (connect_props_bytes props h)
