-- ===== src/Types/VarU32/Bounds.antt =====
-- The numbers that `VarU32::decode` accepts, and the bytes that it takes.
use mymq.Base.{
  ℕ, zero, suc, ◌+◌, ◌*◌, ◌%◌, ◌^◌, ◌≤◌, ◌<◌, min, bit_and, List, [], ◌∷◌, ◌++◌, length, ltb,
  if◌then◌else◌, arith, ◌≡◌, length-append, All,
}
use native.Mathlib.Nat.{pow-succ'}
use native.Mathlib.Numerals.{towards_suc}
use mymq.Base.Tables.{low_seven}
use mymq.Error.{ok}
use mymq.Types.VarU32.{max_var_u32, IsByte, decode_loop, decode}

shift_seven : (i : ℕ) → 2 ^ (7 * (i + 1)) ≡ 128 * 2 ^ (7 * i)
shift_seven i =
    let e : 7 * (i + 1) ≡ 7 * i + 7 = omega arith in rw e (simp towards_suc (omega arith))

-- One more group under the bound `2 ^ 28`, which is `p * q` for the weight `p` of the group.
add_group :
    (p q b out : ℕ) → out < p → p * (128 * q) ≤ 2 ^ 28 → 0 < q → b < 128 → out + b * p < 128 * p
add_group p q b out h w hq hb = grind arith

room : (p q : ℕ) → p * (128 * q) ≤ 2 ^ 28 → 0 < q → 128 * p ≤ 2 ^ 28
room p q w hq = grind arith

pow_pos : (k : ℕ) → 0 < 128 ^ k
pow_pos zero = omega arith
pow_pos (suc k) = rw pow-succ' (omega (arith, pow_pos k))

-- One round, with the wrap-around gone.
decode_loop_round :
    (k b : ℕ) (stream : List ℕ) (i out : ℕ)
    → b < 256
    → out + b % 128 * 2 ^ (7 * i) < 2 ^ 32
    → decode_loop (suc k) (b ∷ stream) i out ≡ (
        if ltb b 128
        then ok (out + b % 128 * 2 ^ (7 * i), i + 1)
        else decode_loop k stream (i + 1) (out + b % 128 * 2 ^ (7 * i)))
unfolding decode_loop
decode_loop_round k b stream i out hb h =
    let wrap : (out + b % 128 * 2 ^ (7 * i) % 2 ^ 32) % 2 ^ 32 ≡ out + b % 128 * 2 ^ (7 * i) =
      omega arith in
    rw (low_seven b hb, wrap)

decode_loop_bounds :
    (k : ℕ) (stream more : List ℕ) (i out v n : ℕ)
    → All IsByte stream
    → out < 2 ^ (7 * i)
    → 2 ^ (7 * i) * 128 ^ k ≤ 2 ^ 28
    → decode_loop k stream i out ≡ ok (v, n)
    → (v ≤ max_var_u32)
      × (i < n)
      × (n ≤ i + k)
      × (n ≤ i + length stream)
      × (decode_loop k (stream ++ more) i out ≡ ok (v, n))
decode_loop_bounds zero stream more i out v n hb ho hw e = unfold decode_loop in cc
decode_loop_bounds (suc k) [] more i out v n hb ho hw e = unfold decode_loop in cc
decode_loop_bounds (suc k) (b ∷ stream) more i out v n hb ho hw e =
    let p = 2 ^ (7 * i) in
    let out' = out + b % 128 * p in
    let w : p * (128 * 128 ^ k) ≤ 2 ^ 28 = rw (pow-succ' 128 k) at hw in
    let fits : out' < 128 * p =
      add_group p (128 ^ k) (b % 128) out ho w (pow_pos k) (omega arith) in
    let low : 128 * p ≤ 2 ^ 28 = room p (128 ^ k) w (pow_pos k) in
    let w' : 2 ^ (7 * (i + 1)) * 128 ^ k ≤ 2 ^ 28 = rw shift_seven (omega (arith)) in
    ground (
      arith,
      decode_loop_round k b stream i out hb.0 (omega arith),
      decode_loop_round k b (stream ++ more) i out hb.0 (omega arith),
      decode_loop_bounds k stream more (i + 1) out' v n hb.1 (rw shift_seven fits) w',
    )

pow_le : (k : ℕ) → k ≤ 4 → 1 * 128 ^ k ≤ 2 ^ 28
pow_le zero h = omega arith
pow_le (suc zero) h = omega arith
pow_le (suc (suc zero)) h = omega arith
pow_le (suc (suc (suc zero))) h = omega arith
pow_le (suc (suc (suc (suc zero)))) h = omega arith
pow_le (suc (suc (suc (suc (suc k))))) h = absurd (omega arith)

-- More rounds do not change a number that was read.
pub decode_loop_mono :
    (k j : ℕ) (stream : List ℕ) (i out v n : ℕ)
    → k ≤ j
    → decode_loop k stream i out ≡ ok (v, n)
    → decode_loop j stream i out ≡ ok (v, n)
unfolding decode_loop
decode_loop_mono zero j stream i out v n h e = cc
decode_loop_mono (suc k) zero stream i out v n h e = absurd (omega arith)
decode_loop_mono (suc k) (suc j) [] i out v n h e = cc
decode_loop_mono (suc k) (suc j) (b ∷ stream) i out v n h e =
    let out' = (out + bit_and b 0x7f * 2 ^ (7 * i) % 2 ^ 32) % 2 ^ 32 in
    ground (arith, decode_loop_mono k j stream (i + 1) out' v n)

-- A number that `decode` accepts is at most the maximum and took one to four bytes of the stream;
-- bytes added behind the stream do not change it.
pub decode_bounds :
    (stream more : List ℕ) (v n : ℕ)
    → All IsByte stream
    → decode stream ≡ ok (v, n)
    → (v ≤ max_var_u32)
      × (1 ≤ n)
      × (n ≤ 4)
      × (n ≤ length stream)
      × (decode (stream ++ more) ≡ ok (v, n))
decode_bounds stream more v n hb e =
    let k = min (length stream) 4 in
    let e' : decode_loop k stream 0 0 ≡ ok (v, n) = unfold decode in e in
    let weight : 2 ^ (7 * 0) * 128 ^ k ≤ 2 ^ 28 = pow_le k (omega arith) in
    let (fits, pos, rounds, inside, same) =
      decode_loop_bounds k stream more 0 0 v n hb (omega arith) weight e' in
    (
      fits,
      pos,
      omega arith,
      omega arith,
      unfold decode in
          decode_loop_mono k (min (length (stream ++ more)) 4) (stream ++ more) 0 0 v n
            (omega (arith, length-append stream more)) same,
    )
