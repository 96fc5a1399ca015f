-- ===== src/V5/ConnAck/Props/Listed.antt =====
-- `ConnAckProperties` is written as the list of the properties that are there.
use mymq.Base.{List, ◌++◌, map, refl}
use mymq.Types.U16
use mymq.Types.U32
use mymq.Types.Text.{encode_user_property, encode_string, encode_bytes}
use mymq.V5.Flag.{enc_bool, bit}
use mymq.V5.PropertyType.{PropertyType}
use mymq.V5.Property.{Property, encode_value, enc_prop, encode_qos}
use mymq.V5.Frame.Puts.{opt, Puts, both, put_opt-Puts, put_all-Puts}
use mymq.V5.ConnAck.Props.{ConnAckProperties, put_connack_props}

-- The properties in the order in which they are written.
abbrev pub listed : ConnAckProperties → List Property
listed props =
    opt Property.session_expiry_interval props.session_expiry_interval
    ++ (opt Property.receive_maximum props.receive_maximum
        ++ (opt Property.maximum_qos props.maximum_qos
            ++ (opt (λ flag. Property.retain_available (bit flag)) props.retain_available
                ++ (opt Property.maximum_packet_size props.max_packet_size
                    ++ (opt Property.assigned_client_identifier props.assigned_client_identifier
                        ++ (opt Property.topic_alias_maximum props.topic_alias_max
                            ++ (opt Property.reason_string props.reason_string
                                ++ (opt
                                      (λ flag. Property.wildcard_subscription_available (bit flag))
                                      props.wildcard_subscription_available
                                    ++ (opt
                                          (λ flag.
                                            Property.subscription_identifier_available (bit flag))
                                          props.subscription_identifiers_available
                                        ++ (opt
                                              (λ flag.
                                                Property.shared_subscription_available (bit flag))
                                              props.shared_subscription_available
                                            ++ (opt Property.server_keep_alive
                                                  props.server_keep_alive
                                                ++ (opt Property.response_information
                                                      props.response_information
                                                    ++ (opt Property.server_reference
                                                          props.server_reference
                                                        ++ (opt Property.authentication_method
                                                            props.authentication_method
                                                            ++ (opt Property.authentication_data
                                                            props.authentication_data
                                                            ++ (map Property.user_prop
                                                            props.user_properties))))))))))))))))

pub puts : (props : ConnAckProperties) → Puts (put_connack_props props) (listed props)
unfolding put_connack_props
puts props =
    let w17 =
      put_all-Puts Property.user_prop PropertyType.user_prop encode_user_property
        (λ v. unfold encode_value in refl) props.user_properties in
    let w16 =
      both
        (put_opt-Puts Property.authentication_data PropertyType.authentication_data encode_bytes
          (λ v. unfold encode_value in refl) props.authentication_data)
        w17 in
    let w15 =
      both
        (put_opt-Puts Property.authentication_method PropertyType.authentication_method
          encode_string (λ v. unfold encode_value in refl) props.authentication_method)
        w16 in
    let w14 =
      both
        (put_opt-Puts Property.server_reference PropertyType.server_reference encode_string
          (λ v. unfold encode_value in refl) props.server_reference)
        w15 in
    let w13 =
      both
        (put_opt-Puts Property.response_information PropertyType.response_information encode_string
          (λ v. unfold encode_value in refl) props.response_information)
        w14 in
    let w12 =
      both
        (put_opt-Puts Property.server_keep_alive PropertyType.server_keep_alive U16.encode
          (λ v. unfold encode_value in refl) props.server_keep_alive)
        w13 in
    let w11 =
      both
        (put_opt-Puts (λ flag. Property.shared_subscription_available (bit flag))
          PropertyType.shared_subscription_available enc_bool
          (λ v. unfold encode_value enc_prop enc_bool in refl) props.shared_subscription_available)
        w12 in
    let w10 =
      both
        (put_opt-Puts (λ flag. Property.subscription_identifier_available (bit flag))
          PropertyType.subscription_identifier_available enc_bool
          (λ v. unfold encode_value enc_prop enc_bool in refl)
          props.subscription_identifiers_available)
        w11 in
    let w9 =
      both
        (put_opt-Puts (λ flag. Property.wildcard_subscription_available (bit flag))
          PropertyType.wildcard_subscription_available enc_bool
          (λ v. unfold encode_value enc_prop enc_bool in refl)
          props.wildcard_subscription_available)
        w10 in
    let w8 =
      both
        (put_opt-Puts Property.reason_string PropertyType.reason_string encode_string
          (λ v. unfold encode_value in refl) props.reason_string)
        w9 in
    let w7 =
      both
        (put_opt-Puts Property.topic_alias_maximum PropertyType.topic_alias_maximum U16.encode
          (λ v. unfold encode_value in refl) props.topic_alias_max)
        w8 in
    let w6 =
      both
        (put_opt-Puts Property.assigned_client_identifier PropertyType.assigned_client_identifier
          encode_string (λ v. unfold encode_value in refl) props.assigned_client_identifier)
        w7 in
    let w5 =
      both
        (put_opt-Puts Property.maximum_packet_size PropertyType.maximum_packet_size U32.encode
          (λ v. unfold encode_value in refl) props.max_packet_size)
        w6 in
    let w4 =
      both
        (put_opt-Puts (λ flag. Property.retain_available (bit flag)) PropertyType.retain_available
          enc_bool (λ v. unfold encode_value enc_prop enc_bool in refl) props.retain_available)
        w5 in
    let w3 =
      both
        (put_opt-Puts Property.maximum_qos PropertyType.maximum_qos encode_qos
          (λ v. unfold encode_value in refl) props.maximum_qos)
        w4 in
    let w2 =
      both
        (put_opt-Puts Property.receive_maximum PropertyType.receive_maximum U16.encode
          (λ v. unfold encode_value in refl) props.receive_maximum)
        w3 in
    both
      (put_opt-Puts Property.session_expiry_interval PropertyType.session_expiry_interval U32.encode
        (λ v. unfold encode_value in refl) props.session_expiry_interval)
      w2
