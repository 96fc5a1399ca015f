-- ===== src/Types/U32.antt =====
-- `impl Packetize for u32` of types.rs: four bytes, the highest first.
use mymq.Base.{ℕ, ◌+◌, ◌*◌, ◌/◌, ◌%◌, List, [], ◌∷◌, arith}
use mymq.Error.{Result, ok, err, insufficient}
use mymq.Types.Blob.{Blob, small_of, Reads, Decoder}

abbrev pub be_bytes : ℕ → List ℕ
be_bytes val = (val / 16777216) ∷ (val / 65536 % 256) ∷ (val / 256 % 256) ∷ (val % 256) ∷ []

unfoldable pub decode : Decoder ℕ
decode (a ∷ b ∷ c ∷ d ∷ stream) = ok (((a * 256 + b) * 256 + c) * 256 + d, 4)
decode stream = err insufficient

unfoldable pub encode : ℕ → Result Blob
encode val = ok (small_of (be_bytes val))

pub decode-be_bytes : (val : ℕ) → Reads decode (be_bytes val) val
unfolding decode
decode-be_bytes val = record { at = λ rest. ground arith }
