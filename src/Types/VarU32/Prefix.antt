-- ===== src/Types/VarU32/Prefix.antt =====
-- What `VarU32::decode` reads stands in the front of the stream.
use mymq.Base.{
  ℕ, zero, suc, ◌+◌, ◌*◌, ◌^◌, ◌%◌, ◌≤◌, ◌<◌, min, bit_and, List, [], ◌∷◌, ◌++◌, length, arith, ◌≡◌,
  length-append, length-take, take, ◌≢◌,
}
use mymq.Error.{ok, panic}
use mymq.Types.VarU32.{decode_loop, decode}
use mymq.Types.VarU32.Bounds.{decode_loop_mono}

decode_loop_prefix :
    (k : ℕ) (stream more : List ℕ) (i out v n : ℕ)
    → decode_loop k stream i out ≡ ok (v, n)
    → (i < n)
      × (n ≤ i + length stream)
      × (n ≤ i + k)
      × (decode_loop k (stream ++ more) i out ≡ ok (v, n))
unfolding decode_loop
decode_loop_prefix zero stream more i out v n e = cc
decode_loop_prefix (suc k) [] more i out v n e = cc
decode_loop_prefix (suc k) (b ∷ stream) more i out v n e =
    let out' = (out + bit_and b 0x7f * 2 ^ (7 * i) % 2 ^ 32) % 2 ^ 32 in
    ground (arith, decode_loop_prefix k stream more (i + 1) out' v n)

-- Bytes behind the stream do not change a number that was read, which took one byte of the stream
-- at least, and no more than there were.
pub decode_prefix :
    (stream more : List ℕ) (v n : ℕ)
    → decode stream ≡ ok (v, n)
    → (1 ≤ n) × (n ≤ length stream) × (decode (stream ++ more) ≡ ok (v, n))
unfolding decode
decode_prefix stream more v n e =
    let k = min (length stream) 4 in
    let (pos, inside, few, same) = decode_loop_prefix k stream more 0 0 v n e in
    (
      omega arith,
      omega arith,
      decode_loop_mono k (min (length (stream ++ more)) 4) (stream ++ more) 0 0 v n
          (omega (arith, length-append stream more)) same,
    )

decode_loop_cut :
    (k r : ℕ) (stream : List ℕ) (j i out v n : ℕ)
    → decode_loop k stream i out ≡ ok (v, n)
    → n ≤ i + j
    → n ≤ i + r
    → decode_loop r (take j stream) i out ≡ ok (v, n)
unfolding decode_loop
decode_loop_cut zero r stream j i out v n e hj hr = cc
decode_loop_cut (suc k) r [] j i out v n e hj hr = cc
decode_loop_cut (suc k) zero (b ∷ stream) j i out v n e hj hr =
    absurd (omega (arith, decode_loop_prefix (suc k) (b ∷ stream) [] i out v n e))
decode_loop_cut (suc k) (suc r) (b ∷ stream) zero i out v n e hj hr =
    absurd (omega (arith, decode_loop_prefix (suc k) (b ∷ stream) [] i out v n e))
decode_loop_cut (suc k) (suc r) (b ∷ stream) (suc j) i out v n e hj hr =
    let out' = (out + bit_and b 0x7f * 2 ^ (7 * i) % 2 ^ 32) % 2 ^ 32 in
    ground (arith, decode_loop_cut k r stream j (i + 1) out' v n)

pub decode_loop_returns : (k : ℕ) (stream : List ℕ) (i out : ℕ) → decode_loop k stream i out ≢ panic
unfolding decode_loop
decode_loop_returns zero stream i out e = cc
decode_loop_returns (suc k) [] i out e = cc
decode_loop_returns (suc k) (b ∷ stream) i out e =
    let out' = (out + bit_and b 0x7f * 2 ^ (7 * i) % 2 ^ 32) % 2 ^ 32 in
    ground (arith, decode_loop_returns k stream (i + 1) out')

-- A number that was read is read off the bytes that it took, too.
pub decode_cut :
    (stream : List ℕ) (j v n : ℕ)
    → decode stream ≡ ok (v, n)
    → n ≤ j
    → decode (take j stream) ≡ ok (v, n)
unfolding decode
decode_cut stream j v n e h =
    let k = min (length stream) 4 in
    let (pos, inside, few, same) = decode_loop_prefix k stream [] 0 0 v n e in
    decode_loop_cut k (min (length (take j stream)) 4) stream j 0 0 v n e (omega arith)
      (omega (arith, length-take j stream))

pub decode_returns : (stream : List ℕ) → decode stream ≢ panic
unfolding decode
decode_returns stream = decode_loop_returns (min (length stream) 4) stream 0 0
