-- ===== src/Types/Utf8/RoundTrip.antt =====
-- The bytes of a string read back as the string.
use mathlib.Core.Option
use mymq.Base.{ℕ, List, [], ◌∷◌, ◌++◌, some, All, ◌≡◌, refl, arith}
use mymq.Types.Utf8.{Str, IsScalar, utf8_char, utf8, start, from_utf8_loop, from_utf8}

step_none :
    (c : ℕ) (rest : List ℕ)
    → IsScalar c
    → from_utf8_loop start (utf8_char c ++ rest)
      ≡ Option.map (λ s. c ∷ s) (from_utf8_loop start rest)
unfolding from_utf8_loop utf8_char
step_none c rest h = ground arith

pub from_utf8-utf8 : (s : Str) → All IsScalar s → from_utf8 (utf8 s) ≡ some s
unfolding from_utf8 utf8
from_utf8-utf8 [] h = refl
from_utf8-utf8 (c ∷ s) h = rw (step_none c (utf8 s) h.0, from_utf8-utf8 s h.1)
