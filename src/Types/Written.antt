-- ===== src/Types/Written.antt =====
-- The scalar values, and text, are read back as they were written.
use mymq.Base.{ℕ, ◌+◌, ◌≤◌, ◌≡◌, refl, List, ◌∷◌, [], ◌++◌, length, Bool-cases, inl, inr, ltb}
use mymq.Error.{Result, ok}
use mymq.Types.Blob.{Blob, large, small_of, as_ref, as_ref-small_of, Decoder, Reads}
use mymq.Types.U8
use mymq.Types.U16
use mymq.Types.U32
use mymq.Types.VarU32
use mymq.Types.VarU32.Laws.{bytes_of, encode-bytes_of, decode-bytes_of}
use mymq.Types.Utf8.{Str, utf8}
use mymq.Types.Text.{
  UserProperty, decode_string, encode_string, decode_bytes, encode_bytes, decode_user_property,
  encode_user_property,
}
use mymq.Types.Text.RoundTrip.{
  IsMqttText, prefixed, decode_bytes-Reads, decode_string-Reads, encode_string-prefixed,
  encode_bytes-prefixed, decode_user_property-Reads,
}
use mymq.Types.Topic.{
  validate_name, decode_name, encode_name, validate_filter, decode_filter, encode_filter,
}

-- `enc` writes `v`, and `dec` reads it back off any stream that begins with what was written.
pub record Written {A : Type 0} (enc : A → Result Blob) (dec : Decoder A) (v : A) : Type 0 where
  pub blob : Blob
  pub writes : enc v ≡ ok blob
  pub reads : Reads dec (as_ref blob) v

pub written :
    {A : Type 0} {enc : A → Result Blob} {dec : Decoder A} {v : A} (blob : Blob) (bytes : List ℕ)
    → enc v ≡ ok blob
    → as_ref blob ≡ bytes
    → Reads dec bytes v
    → Written enc dec v
written blob bytes w e r = record { blob = blob; writes = w; reads = rw e r }

pub small-Written :
    {A : Type 0} {enc : A → Result Blob} {dec : Decoder A} {v : A} (bytes : List ℕ)
    → enc v ≡ ok (small_of bytes)
    → Reads dec bytes v
    → Written enc dec v
small-Written bytes w r = written (small_of bytes) bytes w (as_ref-small_of bytes) r

pub u8-Written : (val : ℕ) → Written U8.encode U8.decode val
u8-Written val = small-Written (val ∷ []) (unfold U8.encode in refl) (U8.decode-Reads val)

pub u16-Written : (val : ℕ) → Written U16.encode U16.decode val
u16-Written val =
    small-Written (U16.be_bytes val) (unfold U16.encode in refl) (U16.decode-be_bytes val)

pub u32-Written : (val : ℕ) → Written U32.encode U32.decode val
u32-Written val =
    small-Written (U32.be_bytes val) (unfold U32.encode in refl) (U32.decode-be_bytes val)

pub var-Written : (val : ℕ) → val ≤ VarU32.max_var_u32 → Written VarU32.encode VarU32.decode val
var-Written val h =
    small-Written (bytes_of val) (encode-bytes_of val h)
      (record { at = λ rest. decode-bytes_of val rest h })

pub string-Written : (val : Str) → IsMqttText val → Written encode_string decode_string val
string-Written val h =
    let (blob, w, e) = encode_string-prefixed val h in
    written blob (prefixed (utf8 val)) w e (decode_string-Reads val h)

pub name-Written :
    (val : Str) → IsMqttText val → validate_name val ≡ ok tt → Written encode_name decode_name val
name-Written val h v =
    let s = string-Written val h in
    record {
      blob = s.blob;
      writes = unfold encode_name in rw v s.writes;
      reads = record { at = λ rest. unfold decode_name in rw (s.reads.at rest, v) refl };
    }

pub filter-Written :
    (val : Str)
    → IsMqttText val
    → validate_filter val ≡ ok tt
    → Written encode_filter decode_filter val
filter-Written val h v =
    let s = string-Written val h in
    record {
      blob = s.blob;
      writes = unfold encode_filter in rw v s.writes;
      reads = record { at = λ rest. unfold decode_filter in rw (s.reads.at rest, v) refl };
    }

pub bytes-Written : (val : List ℕ) → length val ≤ 65535 → Written encode_bytes decode_bytes val
bytes-Written val h =
    written (large (prefixed val)) (prefixed val) (encode_bytes-prefixed val h)
      (unfold as_ref in refl) (decode_bytes-Reads val)

pub user-Written :
    (val : UserProperty)
    → IsMqttText val.0
    → IsMqttText val.1
    → Written encode_user_property decode_user_property val
user-Written (key, val) hk hv =
    let (a, wa, ea) = encode_string-prefixed key hk in
    let (b, wb, eb) = encode_string-prefixed val hv in
    let pair = prefixed (utf8 key) ++ prefixed (utf8 val) in
    let r = decode_user_property-Reads key val hk hv in
    elim (Bool-cases (ltb (length (prefixed (utf8 key)) + length (prefixed (utf8 val))) 32)) [
      | inl lt ↦ small-Written pair (unfold encode_user_property in rw (wa, wb, ea, eb, lt) refl) r
      | inr ge ↦
          written (large pair) pair (unfold encode_user_property in rw (wa, wb, ea, eb, ge) refl)
            (unfold as_ref in refl) r
    ]
