-- ===== src/V5/Connect/RoundTrip/Payload.antt =====
-- The payload of CONNECT is read back as it was written.
use mymq.Base.{ℕ, ◌+◌, ◌≤◌, List, ◌++◌, length, ◌≡◌, refl, arith, append_assoc, length-append}
use mymq.Error.{ok}
use mymq.Types.Blob.{as_ref, Ahead, dec_field-Ahead, past}
use mymq.Types.Utf8.{Str}
use mymq.Types.Text.{decode_string, encode_string, decode_bytes, encode_bytes}
use mymq.Types.Text.RoundTrip.{IsMqttText}
use mymq.Types.Topic.{validate_name, decode_name, encode_name}
use mymq.Types.Written.{Written, string-Written, name-Written, bytes-Written}
use mymq.V5.Frame.{dec_field_if, dec_props_if}
use mymq.V5.Frame.Opts.{OptField, IsField, IsField-map, opt_field, opt_props}
use mymq.V5.Connect.{ConnectPayload, decode_payload, encode_payload}
use mymq.V5.Connect.Flags.{is_will_flag, is_username, is_password}
use mymq.V5.Connect.Will.{decode_will_props, encode_will_props}
use mymq.V5.Connect.Will.Laws.{IsProps, will_props_bytes}

abbrev pub IsName : Str → Type 0
IsName name = IsMqttText name × (validate_name name ≡ ok tt)

abbrev pub IsShort : List ℕ → Type 0
IsShort bytes = length bytes ≤ 65535

-- A payload that can be written: it has the fields that the flags say, and no other.
pub record IsConnectPayload (flags : ℕ) (payload : ConnectPayload) : Type 0 where
  pub client_id : IsMqttText payload.client_id
  pub will_properties : IsField IsProps (is_will_flag flags) payload.will_properties
  pub will_topic : IsField IsName (is_will_flag flags) payload.will_topic
  pub will_payload : IsField IsShort (is_will_flag flags) payload.will_payload
  pub username : IsField IsMqttText (is_username flags) payload.username
  pub password : IsField IsShort (is_password flags) payload.password

-- The bytes of its fields.
pub record PayloadFields (flags : ℕ) (payload : ConnectPayload) : Type 0 where
  pub client_id : Written encode_string decode_string payload.client_id
  pub will_properties :
      OptField encode_will_props
        (dec_props_if (is_will_flag flags) decode_will_props)
        payload.will_properties
  pub will_topic :
      OptField encode_name (dec_field_if (is_will_flag flags) decode_name) payload.will_topic
  pub will_payload :
      OptField encode_bytes (dec_field_if (is_will_flag flags) decode_bytes) payload.will_payload
  pub username :
      OptField encode_string (dec_field_if (is_username flags) decode_string) payload.username
  pub password :
      OptField encode_bytes (dec_field_if (is_password flags) decode_bytes) payload.password

pub payload_fields :
    (flags : ℕ) (payload : ConnectPayload)
    → IsConnectPayload flags payload
    → PayloadFields flags payload
payload_fields flags payload p = record {
  client_id = string-Written payload.client_id p.client_id;
  will_properties =
      opt_props encode_will_props decode_will_props (is_will_flag flags) payload.will_properties (
        IsField-map will_props_bytes (is_will_flag flags) payload.will_properties
          p.will_properties);
  will_topic = opt_field encode_name decode_name (is_will_flag flags) payload.will_topic (
      IsField-map (λ v h. name-Written v h.0 h.1) (is_will_flag flags) payload.will_topic
        p.will_topic);
  will_payload =
      opt_field encode_bytes decode_bytes (is_will_flag flags) payload.will_payload
        (IsField-map bytes-Written (is_will_flag flags) payload.will_payload p.will_payload);
  username =
      opt_field encode_string decode_string (is_username flags) payload.username
        (IsField-map string-Written (is_username flags) payload.username p.username);
  password =
      opt_field encode_bytes decode_bytes (is_password flags) payload.password
        (IsField-map bytes-Written (is_password flags) payload.password p.password);
}

module _ (flags : ℕ) (payload : ConnectPayload) (f : PayloadFields flags payload) where
  abbrev pub payload_bytes : List ℕ
  payload_bytes =
      as_ref f.client_id.blob
      ++ (f.will_properties.bytes
          ++ (f.will_topic.bytes
              ++ (f.will_payload.bytes ++ (f.username.bytes ++ f.password.bytes))))

  pub encode_payload-bytes : encode_payload payload ≡ ok payload_bytes
  encode_payload-bytes =
      unfold encode_payload in
      rw
        (
          f.client_id.writes, f.will_properties.writes, f.will_topic.writes, f.will_payload.writes,
          f.username.writes, f.password.writes,
        )
        refl

  pub decode_payload-bytes :
      (stream tail : List ℕ) (n : ℕ)
      → Ahead stream n (payload_bytes ++ tail)
      → decode_payload flags stream n ≡ ok (payload, n + length payload_bytes)
  decode_payload-bytes stream tail n a =
      let b1 = as_ref f.client_id.blob in
      let b2 = f.will_properties.bytes in
      let b3 = f.will_topic.bytes in
      let b4 = f.will_payload.bytes in
      let b5 = f.username.bytes in
      let b6 = f.password.bytes in
      let a1 : Ahead stream n (b1 ++ (b2 ++ (b3 ++ (b4 ++ (b5 ++ (b6 ++ tail)))))) =
        rw
          (
            append_assoc b1 (b2 ++ (b3 ++ (b4 ++ (b5 ++ b6)))) tail,
            append_assoc b2 (b3 ++ (b4 ++ (b5 ++ b6))) tail,
            append_assoc b3 (b4 ++ (b5 ++ b6)) tail,
            append_assoc b4 (b5 ++ b6) tail,
            append_assoc b5 b6 tail,
          )
          at a in
      let a2 = past b1 a1 in
      let a3 = past b2 a2 in
      let a4 = past b3 a3 in
      let a5 = past b4 a4 in
      let a6 = past b5 a5 in
      let total : n + length b1 + length b2 + length b3 + length b4 + length b5 + length b6
          ≡ n + length payload_bytes =
        omega (
          arith,
          length-append b1 (b2 ++ (b3 ++ (b4 ++ (b5 ++ b6)))),
          length-append b2 (b3 ++ (b4 ++ (b5 ++ b6))),
          length-append b3 (b4 ++ (b5 ++ b6)),
          length-append b4 (b5 ++ b6),
          length-append b5 b6,
        ) in
      unfold decode_payload in
      rw
        (
          dec_field-Ahead _ f.client_id.reads a1,
          f.will_properties.reads stream _ _ a2,
          f.will_topic.reads stream _ _ a3,
          f.will_payload.reads stream _ _ a4,
          f.username.reads stream _ _ a5,
          f.password.reads stream _ _ a6,
          total,
        )
        refl
