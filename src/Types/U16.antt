-- ===== src/Types/U16.antt =====
-- `impl Packetize for u16` of types.rs: two bytes, the high one first.
use mymq.Base.{ℕ, ◌+◌, ◌*◌, ◌/◌, ◌%◌, List, [], ◌∷◌, arith}
use mymq.Error.{Result, ok, err, insufficient}
use mymq.Types.Blob.{Blob, small_of, Reads, Decoder}

abbrev pub be_bytes : ℕ → List ℕ
be_bytes val = (val / 256) ∷ (val % 256) ∷ []

unfoldable pub decode : Decoder ℕ
decode [] = err insufficient
decode (a ∷ []) = err insufficient
decode (a ∷ b ∷ stream) = ok (a * 256 + b, 2)

unfoldable pub encode : ℕ → Result Blob
encode val = ok (small_of (be_bytes val))

pub decode-be_bytes : (val : ℕ) → Reads decode (be_bytes val) val
unfolding decode
decode-be_bytes val = record { at = λ rest. ground arith }
