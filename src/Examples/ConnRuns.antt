-- ===== src/Examples/ConnRuns.antt =====
-- Runs of CONNECT, PUBLISH and the packets as a whole.
use mymq.Base.{ℕ, ◌<◌, All, List, [], ◌∷◌, ◌++◌, none, length, ◌≡◌, refl, inl, arith, ap}
use mymq.Error.{Result, ok}
use mymq.Types.Blob.{Blob, small_of, as_ref, as_ref-small_of}
use mymq.Types.VarU32
use mymq.Types.Utf8.{Str, IsScalar, utf8, utf8_char, all_valid}
use mymq.Types.Text.{encode_string}
use mymq.Types.Text.RoundTrip.{IsMqttText}
use mymq.Types.Written.{Written}
use mymq.Types.Protocol
use mymq.V5.Connect
use mymq.V5.Connect.{Connect, mqtt_name}
use mymq.V5.Connect.Flags
use mymq.V5.Connect.Props.{encode_connect_props}
use mymq.V5.Connect.RoundTrip.{IsConnect, connect-Written}
use mymq.V5.Packet
use mymq.V5.Packet.{Packet}
use mymq.V5.Packet.RoundTrip.{packet-Written}
use mymq.V5.Frame.{enc_opt_props, enc_opt}

-- "c"
abbrev pub client : Str
client = b'c' ∷ []

abbrev pub hello : Connect
hello = record {
  protocol_name = mqtt_name;
  protocol_version = Protocol.v5;
  flags = 2;
  keep_alive = 60;
  properties = none;
  payload = record {
    client_id = client;
    will_properties = none;
    will_topic = none;
    will_payload = none;
    username = none;
    password = none;
  };
}

ascii : (s : Str) → All (λ c. c < 128) s → All IsScalar s
ascii [] h = tt
ascii (c ∷ s) h = ((omega (arith, h.0), inl (omega (arith, h.0))), ascii s h.1)

mqtt-IsMqttText : IsMqttText mqtt_name
mqtt-IsMqttText = record {
  scalars = ascii mqtt_name (omega arith, (omega arith, (omega arith, (omega arith, tt))));
  valid = unfold all_valid in refl;
  short = unfold utf8 utf8_char in omega arith;
}

pub client-IsMqttText : IsMqttText client
client-IsMqttText = record {
  scalars = ascii client (omega arith, tt);
  valid = unfold all_valid in refl;
  short = unfold utf8 utf8_char in omega arith;
}

-- The bytes of a blob that is known.
pub known :
    (bytes : List ℕ) {r : Result Blob} (blob : Blob)
    → r ≡ ok (small_of bytes)
    → r ≡ ok blob
    → length (as_ref blob) ≡ length bytes
known bytes blob e h =
    let b : blob ≡ small_of bytes = cc in rw b (ap length (as_ref-small_of bytes))

name_known : encode_string mqtt_name ≡ ok (small_of (0 ∷ 4 ∷ mqtt_name))
unfolding encode_string utf8 utf8_char all_valid
name_known = refl

pub client_known : encode_string client ≡ ok (small_of (0 ∷ 1 ∷ client))
unfolding encode_string utf8 utf8_char all_valid
client_known = refl

pub none_known :
    {P : Type 0} (enc : P → Result Blob) → enc_opt_props enc none ≡ ok (small_of (0 ∷ []))
unfolding enc_opt_props VarU32.encode
none_known enc = refl

payload_known :
    (bytes : List ℕ) → Connect.encode_payload hello.payload ≡ ok bytes → length bytes ≡ 3
unfolding Connect.encode_payload enc_opt
payload_known bytes e =
    let whole : Connect.encode_payload hello.payload
        ≡ ok (as_ref (small_of (0 ∷ 1 ∷ client)) ++ []) =
      rw client_known refl in
    let b : bytes ≡ as_ref (small_of (0 ∷ 1 ∷ client)) ++ [] = cc in
    rw b (rw (as_ref-small_of (0 ∷ 1 ∷ client)) refl)

pub hello-IsConnect : IsConnect hello
hello-IsConnect = record {
  name = mqtt-IsMqttText;
  valid =
      unfold Connect.validate Connect.check_will Connect.check_protocol Connect.check_will_qos
        Flags.check_flags Connect.check_will_text in
      refl;
  props = tt;
  payload = record {
    client_id = client-IsMqttText;
    will_properties = unfold Flags.is_will_flag in tt;
    will_topic = unfold Flags.is_will_flag in tt;
    will_payload = unfold Flags.is_will_flag in tt;
    username = unfold Flags.is_username in tt;
    password = unfold Flags.is_password in tt;
  };
  short = λ name_blob props_blob bytes e e' e''. omega (
    arith,
    known (0 ∷ 4 ∷ mqtt_name) name_blob name_known e,
    known (0 ∷ []) props_blob (none_known encode_connect_props) e',
    payload_known bytes e'',
  );
}

connect-Written_example : Written Connect.encode Connect.decode hello
connect-Written_example = connect-Written hello hello-IsConnect

packet-Written_example : Written Packet.encode Packet.decode (Packet.connect hello)
packet-Written_example = packet-Written (Packet.connect hello) hello-IsConnect
