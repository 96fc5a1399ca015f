-- ===== src/V5/Flag.antt =====
-- Properties that are a byte 0 or 1 on the wire and a Boolean in the packet.
pub mod Laws
use mymq.Base.{ℕ, Bool, true, false, ◌==◌, if◌then◌else◌}
use mymq.Error.{Result, ok, err, protocol}
use mymq.Types.Blob.{Blob}
use mymq.Types.U8

abbrev pub bit : Bool → ℕ
bit true = 1
bit false = 0

-- The three arms of such a property.
unfoldable pub bool_of : ℕ → Result Bool
bool_of val = if val == 0 then ok false else if val == 1 then ok true else err protocol

-- `let val: u8 = if val { 1 } else { 0 }`
unfoldable pub enc_bool : Bool → Result Blob
unfolding U8.encode
enc_bool flag = U8.encode (bit flag)
