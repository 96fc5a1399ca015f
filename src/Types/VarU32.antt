-- ===== src/Types/VarU32.antt =====
-- `VarU32` of types.rs: numbers below 2 ^ 28 in one to four bytes, seven bits each, the lowest
-- first. A `u32` is a number below 2 ^ 32.
pub mod Laws
pub mod Bounds
pub mod Prefix
use mymq.Base.{
  ℕ, zero, suc, ◌+◌, ◌*◌, ◌/◌, ◌%◌, ◌^◌, ◌≤◌, ◌<◌, min, bit_and, bit_or, List, [], ◌∷◌, length, leb,
  ltb, if◌then◌else◌,
}
use mymq.Error.{Result, ok, err, malformed, protocol_desc}
use mymq.Types.Blob.{Blob, small_of}

abbrev pub IsByte : ℕ → Type 0
IsByte b = b < 256

abbrev pub max_var_u32 : ℕ
max_var_u32 = 268435455

-- `(val & 0x7f) as u8`, and `val >> k`.
abbrev low : ℕ → ℕ
low val = val % 128

abbrev shr : ℕ → ℕ → ℕ
shr val k = val / 2 ^ k

unfoldable pub encode : ℕ → Result Blob
encode val =
    if ltb val 128
    then ok (small_of (low val ∷ []))
    else if ltb val 16384
    then ok (small_of (bit_or (low val) 0x80 ∷ low (shr val 7) ∷ []))
    else if ltb val 2097152
    then ok
        (small_of (bit_or (low val) 0x80 ∷ bit_or (low (shr val 7)) 0x80 ∷ low (shr val 14) ∷ []))
    else if leb val max_var_u32
    then ok (
        small_of (
          bit_or (low val) 0x80
          ∷ bit_or (low (shr val 7)) 0x80
          ∷ bit_or (low (shr val 14)) 0x80
          ∷ low (shr val 21)
          ∷ []))
    else err protocol_desc

-- `for i in 0..n`, with `k` rounds left; `stream` is what has not been read.
unfoldable pub decode_loop : ℕ → List ℕ → ℕ → ℕ → Result (ℕ × ℕ)
decode_loop zero stream i out = err malformed
decode_loop (suc k) [] i out = err malformed
decode_loop (suc k) (b ∷ stream) i out =
    let out' = (out + bit_and b 0x7f * 2 ^ (7 * i) % 2 ^ 32) % 2 ^ 32 in
    let rest = decode_loop k stream (i + 1) out' in if ltb b 0x80 then ok (out', i + 1) else rest

unfoldable pub decode : List ℕ → Result (ℕ × ℕ)
unfolding decode_loop
decode stream = decode_loop (min (length stream) 4) stream 0 0
