-- ===== src/V5/Connect/Flags/WillQos.antt =====
-- What `ConnectFlags::unwrap` makes of the two bits of the will's QoS.
use mymq.Base.{
  ℕ, ◌<◌, true, ◌||◌, ◌==◌, bit_and, if◌then◌else◌, ◌≡◌, refl, Bool-cases, inl, inr, eqb→eq,
}
use mymq.Base.Tables.{passes_below, passes_below_lem}
use mymq.Error.{ok, err, malformed}
use mymq.V5.Qos
use mymq.V5.Qos.{Qos}
use mymq.V5.Header.{unwrap_ok}
use mymq.V5.Connect.Flags.{clean_start, will_flag, will_retain, has, unwrap_flags, check_flags}

-- The QoS that comes out of the flags.
abbrev pub misread : ℕ → Qos
misread flags = if has clean_start flags then Qos.exactly_once else Qos.at_most_once

table :
    passes_below (λ b. has 1 b || (bit_and b 3 == (if has clean_start b then 2 else 0))) 256 ≡ true
unfolding passes_below
table = refl

low_bits :
    (b : ℕ) → b < 256 → check_flags b ≡ ok tt → bit_and b 3 ≡ (if has clean_start b then 2 else 0)
unfolding check_flags
low_bits b h valid =
    let passed : has 1 b || (bit_and b 3 == (if has clean_start b then 2 else 0)) ≡ true =
      passes_below_lem _ b 256 h table in
    elim (Bool-cases (has 1 b)) [
      | inl odd ↦ (let bad : err malformed ≡ ok tt = rw odd at valid in cc)
      | inr even ↦ eqb→eq _ _ (rw even at passed)
    ]

-- Valid flags are unwrapped without a panic, and the will's QoS is exactly once if a clean start
-- is asked for, and at most once if not, whatever its own bits say.
pub unwrap_flags-misread :
    (flags : ℕ)
    → flags < 256
    → check_flags flags ≡ ok tt
    → unwrap_flags flags
      ≡ ok (has clean_start flags, has will_flag flags, misread flags, has will_retain flags)
unfolding unwrap_flags unwrap_ok Qos.try_from
unwrap_flags-misread flags h valid = elim (Bool-cases (has clean_start flags)) [
  | inl set ↦ rw (low_bits flags h valid, set) refl
  | inr clear ↦ rw (low_bits flags h valid, clear) refl
]
