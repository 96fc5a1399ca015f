-- ===== src/Types/Text.antt =====
-- `impl Packetize for String`, `for Vec<u8>` and `for UserProperty` of types.rs
pub mod RoundTrip
use mymq.Base.{
  ℕ, ◌+◌, List, [], ◌∷◌, ◌++◌, Option, none, some, length, take, drop, ltb, if◌then◌else◌,
}
use mymq.Error.{Result, ok, err, malformed, insufficient, protocol_desc, ◌>>=◌}
use mymq.Types.Blob.{Blob, small_of, large, as_ref, Decoder, advance}
use mymq.Types.U16
use mymq.Types.Utf8.{Str, utf8, from_utf8, all_valid}

unfoldable pub check_text : Option Str → ℕ → Result (Str × ℕ)
check_text none n = err malformed
check_text (some s) n = if all_valid s then ok (s, n) else err malformed

unfoldable pub decode_string : Decoder Str
unfolding check_text
decode_string stream = do
  (len, m) ← U16.decode stream
  if ltb (length stream) (len + 2)
      then err insufficient
      else check_text (from_utf8 (take len (drop 2 stream))) (2 + len)

unfoldable pub encode_string : Str → Result Blob
encode_string s =
    if all_valid s
    then (if ltb 65535 (length (utf8 s))
        then err protocol_desc
        else if ltb (length (utf8 s)) 30
        then ok (small_of (U16.be_bytes (length (utf8 s)) ++ utf8 s))
        else ok (large (U16.be_bytes (length (utf8 s)) ++ utf8 s)))
    else err protocol_desc

unfoldable pub decode_bytes : Decoder (List ℕ)
decode_bytes stream = do
  (len, m) ← U16.decode stream
  if ltb (length stream) (len + 2) then err insufficient else ok (take len (drop 2 stream), 2 + len)

unfoldable pub encode_bytes : List ℕ → Result Blob
encode_bytes bytes =
    if ltb 65535 (length bytes)
    then err protocol_desc
    else ok (large (U16.be_bytes (length bytes) ++ bytes))

abbrev pub UserProperty : Type 0
UserProperty = Str × Str

unfoldable pub decode_user_property : Decoder UserProperty
decode_user_property stream = do
  (key, m) ← decode_string stream
  rest ← advance stream m
  (val, n) ← decode_string rest
  ok ((key, val), m + n)

unfoldable pub encode_user_property : UserProperty → Result Blob
encode_user_property (key, val) = do
  key_blob ← encode_string key
  val_blob ← encode_string val
  let pair = as_ref key_blob ++ as_ref val_blob
  if ltb (length (as_ref key_blob) + length (as_ref val_blob)) 32
      then ok (small_of pair)
      else ok (large pair)
