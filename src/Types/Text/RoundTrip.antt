-- ===== src/Types/Text/RoundTrip.antt =====
-- Strings, byte vectors and user properties read back as they were written.
use mymq.Base.{
  ℕ, ◌≤◌, ◌<◌, List, ◌++◌, length, ltb, ◌≡◌, refl, arith, true, false, All, append_assoc,
  length-append, take-append, Bool-cases, inl, inr,
}
use mymq.Error.{ok, err, protocol_desc}
use mymq.Types.Blob.{Blob, small_of, large, as_ref, as_ref-small_of, advance-append, Reads}
use mymq.Types.U16
use mymq.Types.Utf8.{Str, IsScalar, utf8, all_valid}
use mymq.Types.Utf8.RoundTrip.{from_utf8-utf8}
use mymq.Types.Text.{decode_string, encode_string, decode_bytes, encode_bytes, decode_user_property}

-- A Rust string that MQTT can carry.
pub record IsMqttText (s : Str) : Type 0 where
  pub scalars : All IsScalar s
  pub valid : all_valid s ≡ true
  pub short : length (utf8 s) ≤ 65535

-- `bytes` behind its length.
abbrev pub prefixed : List ℕ → List ℕ
prefixed bytes = U16.be_bytes (length bytes) ++ bytes

pub decode_bytes-Reads : (bytes : List ℕ) → Reads decode_bytes (prefixed bytes) bytes
decode_bytes-Reads bytes = record {
  at = λ rest.
      unfold decode_bytes in
      rw ((U16.decode-be_bytes (length bytes)).at (bytes ++ rest))
        (ground (arith, length-append bytes rest, take-append bytes rest));
}

pub decode_string-Reads : (s : Str) → IsMqttText s → Reads decode_string (prefixed (utf8 s)) s
decode_string-Reads s h = record {
  at = λ rest.
      unfold decode_string in
      rw ((U16.decode-be_bytes (length (utf8 s))).at (utf8 s ++ rest))
        (ground (arith, length-append (utf8 s) rest, take-append (utf8 s) rest, from_utf8-utf8 s));
}

pub encode_string-prefixed :
    (s : Str)
    → IsMqttText s
    → (blob : Blob) × (encode_string s ≡ ok blob) × (as_ref blob ≡ prefixed (utf8 s))
unfolding encode_string as_ref
encode_string-prefixed s h = elim (Bool-cases (ltb (length (utf8 s)) 30)) [
  | inl e ↦ (small_of (prefixed (utf8 s)), ground arith, as_ref-small_of _)
  | inr e ↦ (large (prefixed (utf8 s)), ground arith, refl)
]

pub encode_bytes-prefixed :
    (bytes : List ℕ) → length bytes ≤ 65535 → encode_bytes bytes ≡ ok (large (prefixed bytes))
unfolding encode_bytes
encode_bytes-prefixed bytes h = ground arith

pub decode_user_property-Reads :
    (key val : Str)
    → IsMqttText key
    → IsMqttText val
    → Reads decode_user_property (prefixed (utf8 key) ++ prefixed (utf8 val)) (key, val)
decode_user_property-Reads key val hk hv = record {
  at = λ rest.
      let k = prefixed (utf8 key) in
      let v = prefixed (utf8 val) in
      rw append_assoc (
        unfold decode_user_property in
        rw (
          (decode_string-Reads key hk).at (v ++ rest),
          advance-append k (v ++ rest),
          (decode_string-Reads val hv).at rest,
          length-append k v,
        ));
}

-- A string writes if it is valid and short, and reads back, with whatever follows it; any other
-- string is refused on writing.
pub decode_string-encode_string :
    (s : Str)
    → (IsMqttText s
        → (blob : Blob) × (encode_string s ≡ ok blob) × Reads decode_string (as_ref blob) s)
      × (all_valid s ≡ false → encode_string s ≡ err protocol_desc)
      × (65535 < length (utf8 s) → encode_string s ≡ err protocol_desc)
decode_string-encode_string s = (
  λ h. let (blob, e, b) = encode_string-prefixed s h in (blob, e, rw b (decode_string-Reads s h)),
  λ h. unfold encode_string in ground arith,
  λ h. unfold encode_string in ground arith,
)
