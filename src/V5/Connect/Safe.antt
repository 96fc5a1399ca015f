-- ===== src/V5/Connect/Safe.antt =====
-- CONNECT is read without a panic.
use mymq.Base.{ℕ, Bool, true, false, List, Option, none, length, ◌≡◌, refl, arith}
use mymq.Error.{ok, ◌>>◌}
use mymq.Error.Ensures.{Ensures, NoPanic, Ensures-bind, NoPanic-bind}
use mymq.Types.Blob.{Decoder}
use mymq.Types.U8
use mymq.Types.U16
use mymq.Types.Utf8.{Str}
use mymq.Types.Protocol
use mymq.Types.Protocol.{MqttProtocol}
use mymq.Types.Text.{decode_string, decode_bytes}
use mymq.Types.Topic.{decode_name}
use mymq.Types.Safe.{
  Within, Safe, dec_field-Ensures, u8-Safe, u16-Safe, string-Safe, bytes-Safe, name-Safe,
}
use mymq.V5.Qos
use mymq.V5.PacketType
use mymq.V5.Frame.{dec_props_if}
use mymq.V5.Frame.Safe.{field-step, field-Safe, props-step, field_if-Ensures, props_if-Safe}
use mymq.V5.Frame.Received.{Received}
use mymq.V5.Connect.{
  Connect, ConnectPayload, check_protocol, check_will, check_will_text, check_will_qos, validate,
  decode_payload, decode,
}
use mymq.V5.Connect.Flags.{
  will_flag, has, is_will_flag, is_username, is_password, check_flags, decode_flags,
}
use mymq.V5.Connect.Props.{decode_connect_props}
use mymq.V5.Connect.Props.Safe.{decode_connect_props-Safe}
use mymq.V5.Connect.Will.{decode_will_props}
use mymq.V5.Connect.Will.Safe.{decode_will_props-Safe}

flags-NoPanic : (flags : ℕ) → NoPanic (check_flags flags)
unfolding check_flags
flags-NoPanic flags = ground arith

flags-Safe : Safe decode_flags
unfolding decode_flags
flags-Safe stream =
    field-Safe U8.decode stream 0 u8-Safe _
      (λ flags n le. NoPanic-bind _ (check_flags flags) _ (flags-NoPanic flags) (λ u e. le))

protocol-NoPanic : (name : Str) (version : MqttProtocol) → NoPanic (check_protocol name version)
unfolding check_protocol
protocol-NoPanic name version = ground arith

version-NoPanic : (val : ℕ) → NoPanic (Protocol.try_from val)
unfolding Protocol.try_from
version-NoPanic val = ground arith

qos-NoPanic : (flags : ℕ) → NoPanic (check_will_qos flags)
unfolding check_will_qos Qos.try_from
qos-NoPanic flags = ground arith

-- Without the will flag there are no properties of a will.
abbrev Paired : ℕ → ConnectPayload → Type 0
Paired flags payload = has will_flag flags ≡ false → payload.will_properties ≡ none

will-NoPanic :
    (there : Bool) (payload : ConnectPayload)
    → (there ≡ false → payload.will_properties ≡ none)
    → NoPanic
        (check_will there payload >> check_will_text payload.will_properties payload.will_payload)
unfolding check_will check_will_text
will-NoPanic false payload h = rw (h refl) tt
will-NoPanic true payload h = ground arith

validate-NoPanic :
    (packet : Connect) → Paired packet.flags packet.payload → NoPanic (validate packet)
unfolding validate
validate-NoPanic packet h =
    NoPanic-bind _ (check_protocol packet.protocol_name packet.protocol_version) _
      (protocol-NoPanic packet.protocol_name packet.protocol_version)
      (λ u e. NoPanic-bind _ (check_flags packet.flags) _ (flags-NoPanic packet.flags) (λ u' e'.
        NoPanic-bind _ (check_will_qos packet.flags) _ (qos-NoPanic packet.flags)
          (λ u'' e''. will-NoPanic (has will_flag packet.flags) packet.payload h)))

no_props :
    {A : Type 0} (there : Bool) (dec : Decoder A) (stream : List ℕ) (n : ℕ) (o : Option A × ℕ)
    → dec_props_if there dec stream n ≡ ok o
    → there ≡ false
    → o.0 ≡ none
unfolding dec_props_if
no_props true dec stream n o e h = cc
no_props false dec stream n o e h = cc

payload-Ensures :
    (flags : ℕ) (stream : List ℕ) (n : ℕ)
    → Ensures (λ (payload, m). Paired flags payload) (decode_payload flags stream n)
unfolding decode_payload is_will_flag
payload-Ensures flags stream n =
    Ensures-bind (Within (length stream)) _ _ _
      (dec_field-Ensures decode_string stream n string-Safe)
      (λ (id, n1) e1 le1.
        Ensures-bind (Within (length stream)) _ _ _
          (props_if-Safe (is_will_flag flags) decode_will_props stream n1 le1
            decode_will_props-Safe)
          (λ (props, n2) e2 le2.
            field_if-Ensures decode_name stream n2 name-Safe (is_will_flag flags) _ _ le2
              (λ topic n3 le3.
                field_if-Ensures decode_bytes stream n3 bytes-Safe (is_will_flag flags) _ _ le3
                  (λ bytes n4 le4.
                    field_if-Ensures decode_string stream n4 string-Safe (is_username flags) _ _ le4
                      (λ name n5 le5.
                        field_if-Ensures decode_bytes stream n5 bytes-Safe (is_password flags) _ _
                          le5
                          (λ password n6 le6 no_will.
                            no_props (is_will_flag flags) decode_will_props stream n1 (props, n2) e2
                              no_will))))))

pub decode-NoPanic :
    (stream : List ℕ) → Received PacketType.connect stream → NoPanic (decode stream)
unfolding decode
decode-NoPanic stream r =
    rw (r.head, r.valid)
      (field-step decode_string stream r.fh_len string-Safe _ (λ name n1 le1.
        field-step U8.decode stream n1 u8-Safe _ (λ val n2 le2.
          NoPanic-bind _ (Protocol.try_from val) _ (version-NoPanic val) (λ version e.
            field-step decode_flags stream n2 flags-Safe _ (λ flags n3 le3.
              field-step U16.decode stream n3 u16-Safe _ (λ keep n4 le4.
                props-step decode_connect_props stream n4 decode_connect_props-Safe _
                  (λ props n5 le5.
                    Ensures-bind (λ (payload, m). Paired flags payload) _
                      (decode_payload flags stream n5) _ (payload-Ensures flags stream n5)
                      (λ (payload, n6) e' paired.
                        NoPanic-bind _ _ _ (validate-NoPanic _ paired) (λ u e''. tt)))))))))
