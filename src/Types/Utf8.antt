-- ===== src/Types/Utf8.antt =====
-- Rust's `String`: the list of its characters, each a Unicode scalar value. Its bytes are the UTF-8
-- form `utf8`, and `from_utf8` is `std::str::from_utf8`.
pub mod RoundTrip
use mathlib.Core.Option
use mymq.Base.{
  ℕ, zero, suc, ◌+◌, ◌-◌, ◌*◌, ◌/◌, ◌%◌, ◌<◌, ◌≤◌, List, [], ◌∷◌, ◌++◌, Option, none, some, Bool,
  true, false, ◌&&◌, ◌||◌, not, ltb, leb, ◌==◌, if◌then◌else◌, length, All, ◌⊎◌,
}

abbrev pub Str : Type 0
Str = List ℕ

-- What Rust's `char` guarantees.
abbrev pub IsScalar : ℕ → Type 0
IsScalar c = (c < 0x110000) × ((c < 0xd800) ⊎ (0xdfff < c))

unfoldable pub utf8_char : ℕ → List ℕ
utf8_char c =
    if ltb c 0x80
    then c ∷ []
    else if ltb c 0x800
    then (0xc0 + c / 64) ∷ (0x80 + c % 64) ∷ []
    else if ltb c 0x10000
    then (0xe0 + c / 4096) ∷ (0x80 + c / 64 % 64) ∷ (0x80 + c % 64) ∷ []
    else (0xf0 + c / 262144) ∷ (0x80 + c / 4096 % 64) ∷ (0x80 + c / 64 % 64) ∷ (0x80 + c % 64) ∷ []

-- `as_bytes`
unfoldable pub utf8 : Str → List ℕ
unfolding utf8_char
utf8 [] = []
utf8 (c ∷ s) = utf8_char c ++ utf8 s

-- Between characters, or inside one: the bytes left, the bits so far, the least value for its width.
pub data Pending : Type 0 where
  start : Pending
  more : ℕ → ℕ → ℕ → Pending

is_scalar : ℕ → Bool
is_scalar c = ltb c 0x110000 && (ltb c 0xd800 || ltb 0xdfff c)

-- One byte: the next state, and the character that it completes.
unfoldable pub byte : Pending → ℕ → Option (Pending × List ℕ)
unfolding is_scalar
byte start b =
    if ltb b 0x80
    then some (start, b ∷ [])
    else if ltb b 0xc0
    then none
    else if ltb b 0xe0
    then some (more 1 (b - 0xc0) 0x80, [])
    else if ltb b 0xf0
    then some (more 2 (b - 0xe0) 0x800, [])
    else if ltb b 0xf8
    then some (more 3 (b - 0xf0) 0x10000, [])
    else none
byte (more k bits least) b =
    let bits' = bits * 64 + (b - 0x80) in
    if ltb b 0x80 || leb 0xc0 b
    then none
    else if ltb 1 k
    then some (more (k - 1) bits' least, [])
    else if leb least bits' && is_scalar bits'
    then some (start, bits' ∷ [])
    else none

unfoldable pub from_utf8_loop : Pending → List ℕ → Option Str
unfolding byte
from_utf8_loop start [] = some []
from_utf8_loop (more k bits least) [] = none
from_utf8_loop p (b ∷ bytes) = elim (byte p b) [
  | none ↦ none
  | some (p', out) ↦ Option.map (λ s. out ++ s) (from_utf8_loop p' bytes)
]

unfoldable pub from_utf8 : List ℕ → Option Str
unfolding from_utf8_loop
from_utf8 bytes = from_utf8_loop start bytes

-- `is_valid_utf8_code_point` of util.rs
unfoldable pub is_valid_utf8_code_point : ℕ → Bool
is_valid_utf8_code_point c =
    not ((leb 0xd800 c && leb c 0xdfff) || leb c 0x1f || (leb 0x7f c && leb c 0x9f))

unfoldable pub all_valid : Str → Bool
unfolding is_valid_utf8_code_point
all_valid [] = true
all_valid (c ∷ s) = is_valid_utf8_code_point c && all_valid s
