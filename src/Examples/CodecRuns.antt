-- ===== src/Examples/CodecRuns.antt =====
-- Runs of the encoders and decoders.
use mymq.Base.{
  All, ℕ, ◌≤◌, ◌<◌, true, false, List, [], ◌∷◌, ◌++◌, some, length, ◌≡◌, ◌≢◌, ◌↔◌, ◌⊎◌, inl, refl,
  arith, ◌==◌, if◌then◌else◌,
}
use mymq.Error.{ok, err, malformed, protocol_desc}
use mymq.Types.Blob.{Blob, as_ref, Reads}
use mymq.Types.VarU32.{max_var_u32}
use mymq.Types.VarU32
use mymq.Types.VarU32.Laws.{decode_var_u32-encode_var_u32}
use mymq.Types.VarU32.Bounds.{decode_bounds}
use mymq.Types.Utf8.{Str, utf8, utf8_char, from_utf8, all_valid}
use mymq.Types.Utf8.RoundTrip.{from_utf8-utf8}
use mymq.Types.Text.{decode_string, encode_string}
use mymq.Types.Text.RoundTrip.{IsMqttText, decode_string-encode_string}
use mymq.Types.Topic.{any, iter_topic_path, validate_name, validate_filter}
use mymq.Types.Topic.Validate.{IsLevels, IsPlainChar, validate_filter_lem, validate_name_lem}
use mymq.V5.Qos
use mymq.V5.Header.{FixedHeader, validate}
use mymq.V5.Header
use mymq.V5.Header.Flags.{allowed, validate-allowed, Built, constructors-Built}
use mymq.V5.Header.Wire.{decode_header-encode_header}
use mymq.V5.PacketType
use mymq.V5.Property
use mymq.V5.Property.{Property}
use mymq.Types.Written.{Written}
use mymq.V5.Property.RoundTrip.{IsProperty, encode_property-Written}

decode_var_u32-encode_var_u32_example :
    (321 ≤ max_var_u32
      → (blob : Blob) × (VarU32.encode 321 ≡ ok blob)
        × ((rest : List ℕ) → VarU32.decode (as_ref blob ++ rest) ≡ ok (321, length (as_ref blob))))
    × (max_var_u32 < 321 → VarU32.encode 321 ≡ err protocol_desc)
decode_var_u32-encode_var_u32_example = decode_var_u32-encode_var_u32 321

-- The two bytes of 321, with one behind them.
decode_bounds_example :
    (321 ≤ max_var_u32)
    × (1 ≤ 2)
    × (2 ≤ 4)
    × (2 ≤ 3)
    × (VarU32.decode (193 ∷ 2 ∷ 7 ∷ 9 ∷ []) ≡ ok (321, 2))
decode_bounds_example =
    decode_bounds (193 ∷ 2 ∷ 7 ∷ []) (9 ∷ []) 321 2 (omega arith, (omega arith, (omega arith, tt)))
      (unfold VarU32.decode VarU32.decode_loop in refl)

-- "é€"
abbrev text : Str
text = 0xe9 ∷ 0x20ac ∷ []

from_utf8-utf8_example : from_utf8 (utf8 text) ≡ some text
from_utf8-utf8_example =
    from_utf8-utf8 text ((omega arith, inl (omega arith)), ((omega arith, inl (omega arith)), tt))

decode_string-encode_string_example :
    (IsMqttText text
      → (blob : Blob) × (encode_string text ≡ ok blob) × Reads decode_string (as_ref blob) text)
    × (all_valid text ≡ false → encode_string text ≡ err protocol_desc)
    × (65535 < length (utf8 text) → encode_string text ≡ err protocol_desc)
decode_string-encode_string_example = decode_string-encode_string text

-- "a/#"
abbrev filter_text : Str
filter_text = b'a' ∷ b'/' ∷ b'#' ∷ []

validate_filter_lem_example :
    ((validate_filter filter_text ≡ ok tt) ↔ (
      (filter_text ≢ [])
      × (any (λ c. c == 0) filter_text ≡ false)
      × IsLevels (iter_topic_path filter_text)))
    × ((validate_filter filter_text ≡ ok tt) ⊎ (validate_filter filter_text ≡ err malformed))
validate_filter_lem_example = validate_filter_lem filter_text

validate_name_lem_example :
    ((validate_name text ≡ ok tt)
      ↔ ((validate_filter text ≡ ok tt) × All (λ l. All IsPlainChar l) (iter_topic_path text)))
    × ((validate_name text ≡ ok tt) ⊎ (validate_name text ≡ err malformed))
validate_name_lem_example = validate_name_lem text

-- UNSUBSCRIBE without the flags that MQTT asks for: it is accepted.
abbrev bare : FixedHeader
bare = record { byte1 = 160; remaining_len = 2 }

validate-allowed_example : validate bare ≡ (if allowed bare.byte1 then ok tt else err malformed)
validate-allowed_example = validate-allowed bare (omega arith)

constructors-Built_example :
    Built (Header.new PacketType.ping_req 0) 0 (PacketType.ping_req, false, Qos.at_most_once, false)
    × Built
        (Header.new_publish true Qos.exactly_once false 0)
        0
        (PacketType.publish, true, Qos.exactly_once, false)
    × Built (Header.new_pubrel 0) 0 (PacketType.pub_rel, false, Qos.at_least_once, false)
    × Built (Header.new_subscribe 0) 0 (PacketType.subscribe, false, Qos.at_least_once, false)
    × Built (Header.new_unsubscribe 0) 0 (PacketType.un_subscribe, false, Qos.at_least_once, false)
constructors-Built_example = constructors-Built PacketType.ping_req true false Qos.exactly_once 0

decode_header-encode_header_example :
    (blob : Blob) × (Header.encode bare ≡ ok blob)
    × Reads Header.decode (as_ref blob) bare
    × (bare.remaining_len < max_var_u32 → Header.len bare ≡ ok (length (as_ref blob)))
    × (bare.remaining_len ≡ max_var_u32 → Header.len bare ≡ err malformed)
decode_header-encode_header_example =
    decode_header-encode_header bare (omega arith) (validate-allowed bare (omega arith))

text-IsMqttText : IsMqttText text
text-IsMqttText = record {
  scalars = ((omega arith, inl (omega arith)), ((omega arith, inl (omega arith)), tt));
  valid = unfold all_valid in refl;
  short = unfold utf8 utf8_char in omega arith;
}

encode_property-Written_example :
    Written Property.encode Property.decode (Property.reason_string text)
encode_property-Written_example =
    encode_property-Written (Property.reason_string text) (unfold IsProperty in text-IsMqttText)
