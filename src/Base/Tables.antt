-- ===== src/Base/Tables.antt =====
-- Facts about single bytes, checked at each of the at most 256 values by evaluation.
use Prim.Native.Nat.{ℕ, zero, suc, ◌+◌, ◌%◌, ◌<◌, bit_and, bit_or}
use mathlib.Core.Path.{◌≡◌, refl}
use mathlib.Core.Bool.{Bool, true, ◌&&◌}
use native.Mathlib.Omega.{arith}
use mymq.Base.Tests.{◌==◌, eqb→eq}

-- The test `p` passes at every number below the bound.
unfoldable pub passes_below : (ℕ → Bool) → ℕ → Bool
passes_below p zero = true
passes_below p (suc bound) = passes_below p bound && p bound

pub passes_below_lem :
    (p : ℕ → Bool) (b bound : ℕ) → b < bound → passes_below p bound ≡ true → p b ≡ true
unfolding passes_below
passes_below_lem p b zero less h = absurd (omega arith)
passes_below_lem p b (suc bound) less h = ground (arith, passes_below_lem p b bound)

low_table : passes_below (λ b. bit_and b 0x7f == b % 128) 256 ≡ true
unfolding passes_below
low_table = refl

top_table : passes_below (λ b. bit_or b 0x80 == b + 128) 128 ≡ true
unfolding passes_below
top_table = refl

pub low_seven : (b : ℕ) → b < 256 → bit_and b 0x7f ≡ b % 128
low_seven b h = eqb→eq _ _ (passes_below_lem _ b 256 h low_table)

pub set_top : (b : ℕ) → b < 128 → bit_or b 0x80 ≡ b + 128
set_top b h = eqb→eq _ _ (passes_below_lem _ b 128 h top_table)
