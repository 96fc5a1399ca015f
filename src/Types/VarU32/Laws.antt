-- ===== src/Types/VarU32/Laws.antt =====
-- What `VarU32` writes and reads.
use mymq.Base.{
  false, ℕ, zero, suc, ◌+◌, ◌*◌, ◌%◌, ◌^◌, ◌≤◌, ◌<◌, min, bit_and, bit_or, List, [], ◌∷◌, ◌++◌,
  length, ltb, if◌then◌else◌, arith, ◌≡◌,
}
use mymq.Base.Tables.{low_seven, set_top}
use mymq.Error.{ok, err, protocol_desc}
use mymq.Types.Blob.{Blob, as_ref, small_of, as_ref-small_of}
use mymq.Types.VarU32.{max_var_u32, encode, decode_loop, decode, low, shr}

-- A last byte, and a byte with its top bit set over `b`.
last_byte :
    (k b : ℕ) (rest : List ℕ) (i out : ℕ)
    → b < 128
    → decode_loop (suc k) (b ∷ rest) i out ≡ ok ((out + b * 2 ^ (7 * i) % 2 ^ 32) % 2 ^ 32, i + 1)
unfolding decode_loop
last_byte k b rest i out h = ground (arith, low_seven b)

inner_byte :
    (k b : ℕ) (rest : List ℕ) (i out : ℕ)
    → b < 128
    → decode_loop (suc k) (bit_or b 0x80 ∷ rest) i out
      ≡ decode_loop k rest (i + 1) ((out + b * 2 ^ (7 * i) % 2 ^ 32) % 2 ^ 32)
unfolding decode_loop
inner_byte k b rest i out h =
    let group : bit_and (b + 128) 0x7f ≡ b = omega (arith, low_seven (b + 128)) in
    let goes_on : ltb (b + 128) 0x80 ≡ false = ground arith in rw (set_top b h, group, goes_on)

-- the bytes that `encode` writes
abbrev pub bytes_of : ℕ → List ℕ
bytes_of val =
    if ltb val 128
    then low val ∷ []
    else if ltb val 16384
    then bit_or (low val) 0x80 ∷ low (shr val 7) ∷ []
    else if ltb val 2097152
    then bit_or (low val) 0x80 ∷ bit_or (low (shr val 7)) 0x80 ∷ low (shr val 14) ∷ []
    else bit_or (low val) 0x80
      ∷ bit_or (low (shr val 7)) 0x80
      ∷ bit_or (low (shr val 14)) 0x80
      ∷ low (shr val 21)
      ∷ []

pub encode-bytes_of : (val : ℕ) → val ≤ max_var_u32 → encode val ≡ ok (small_of (bytes_of val))
unfolding encode
encode-bytes_of val h = ground arith

one_byte : (b : ℕ) (rest : List ℕ) → b < 128 → decode (b ∷ rest) ≡ ok (b, 1)
one_byte b rest h =
    let e : min (length (b ∷ rest)) 4 ≡ suc (min (length rest) 3) = omega arith in
    unfold decode in rw (e, last_byte _ b rest 0 0 h) (ground arith)

two_bytes :
    (a b : ℕ) (rest : List ℕ)
    → a < 128
    → b < 128
    → decode (bit_or a 0x80 ∷ b ∷ rest) ≡ ok (a + b * 128, 2)
two_bytes a b rest ha hb =
    let e : min (suc (suc (length rest))) 4 ≡ suc (suc (min (length rest) 2)) = omega arith in
    unfold decode in
    rw (e, inner_byte _ a (b ∷ rest) 0 0 ha, last_byte _ b rest 1 _ hb) (ground arith)

three_bytes :
    (a b c : ℕ) (rest : List ℕ)
    → a < 128
    → b < 128
    → c < 128
    → decode (bit_or a 0x80 ∷ bit_or b 0x80 ∷ c ∷ rest) ≡ ok (a + b * 128 + c * 16384, 3)
three_bytes a b c rest ha hb hc =
    let e : min (suc (suc (suc (length rest)))) 4 ≡ suc (suc (suc (min (length rest) 1))) =
      omega arith in
    unfold decode in
    rw
      (
        e,
        inner_byte _ a (bit_or b 0x80 ∷ c ∷ rest) 0 0 ha,
        inner_byte _ b (c ∷ rest) 1 _ hb,
        last_byte _ c rest 2 _ hc,
      )
      (ground arith)

four_bytes :
    (a b c d : ℕ) (rest : List ℕ)
    → a < 128
    → b < 128
    → c < 128
    → d < 128
    → decode (bit_or a 0x80 ∷ bit_or b 0x80 ∷ bit_or c 0x80 ∷ d ∷ rest)
      ≡ ok (a + b * 128 + c * 16384 + d * 2097152, 4)
four_bytes a b c d rest ha hb hc hd =
    let e : min (suc (suc (suc (suc (length rest))))) 4 ≡ suc (suc (suc (suc zero))) =
      omega arith in
    unfold decode in
    rw
      (
        e,
        inner_byte _ a (bit_or b 0x80 ∷ bit_or c 0x80 ∷ d ∷ rest) 0 0 ha,
        inner_byte _ b (bit_or c 0x80 ∷ d ∷ rest) 1 _ hb,
        inner_byte _ c (d ∷ rest) 2 _ hc,
        last_byte _ d rest 3 _ hd,
      )
      (ground arith)

-- Reading back what was written, with whatever follows it.
pub decode-bytes_of :
    (val : ℕ) (rest : List ℕ)
    → val ≤ max_var_u32
    → decode (bytes_of val ++ rest) ≡ ok (val, length (bytes_of val))
decode-bytes_of val rest h = ground (
  arith,
  one_byte (low val) rest,
  two_bytes (low val) (low (shr val 7)) rest,
  three_bytes (low val) (low (shr val 7)) (low (shr val 14)) rest,
  four_bytes (low val) (low (shr val 7)) (low (shr val 14)) (low (shr val 21)) rest,
)

-- Up to the maximum `encode` succeeds, and `decode` reads the value back, whatever bytes follow,
-- taking as many bytes as were written; above it `encode` is a protocol error.
pub decode_var_u32-encode_var_u32 :
    (val : ℕ)
    → (val ≤ max_var_u32
        → (blob : Blob) × (encode val ≡ ok blob)
          × ((rest : List ℕ) → decode (as_ref blob ++ rest) ≡ ok (val, length (as_ref blob))))
      × (max_var_u32 < val → encode val ≡ err protocol_desc)
decode_var_u32-encode_var_u32 val = (
  λ h. (
    small_of (bytes_of val),
    encode-bytes_of val h,
    λ rest. rw (as_ref-small_of (bytes_of val)) (decode-bytes_of val rest h),
  ),
  λ h. unfold encode in ground arith,
)
