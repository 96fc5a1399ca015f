-- ===== src/Types/U8.antt =====
-- `impl Packetize for u8` of types.rs
use mymq.Base.{ℕ, refl, [], ◌∷◌}
use mymq.Error.{Result, ok, err, insufficient}
use mymq.Types.Blob.{Blob, small_of, Reads, Decoder}

unfoldable pub decode : Decoder ℕ
decode [] = err insufficient
decode (b ∷ stream) = ok (b, 1)

unfoldable pub encode : ℕ → Result Blob
encode val = ok (small_of (val ∷ []))

pub decode-Reads : (val : ℕ) → Reads decode (val ∷ []) val
unfolding decode
decode-Reads val = record { at = λ rest. refl }
