-- ===== src/V5/PayloadFormat.antt =====
-- `PayloadFormat` of v5/mod.rs
pub mod Laws
use mymq.Base.{ℕ, Bool, true, false, List, ◌==◌, if◌then◌else◌}
use mymq.Error.{Result, ok, err, malformed}
use mymq.Types.U8
use mymq.V5.PropertyType.{PropertyType}
use mymq.V5.Frame.{put_prop}

pub data PayloadFormat : Type 0 where
  binary text : PayloadFormat

unfoldable pub try_from : ℕ → Result PayloadFormat
try_from val = if val == 0 then ok binary else if val == 1 then ok text else err malformed

unfoldable pub to_u8 : PayloadFormat → ℕ
to_u8 binary = 0
to_u8 text = 1

abbrev pub is_utf8 : PayloadFormat → Bool
is_utf8 text = true
is_utf8 binary = false

-- `if self.payload_format_indicator.is_utf8()`, the property is written.
unfoldable pub put_format : PayloadFormat → List ℕ → Result (List ℕ)
unfolding put_prop to_u8
put_format format buf =
    if is_utf8 format
    then put_prop PropertyType.payload_format_indicator U8.encode (to_u8 text) buf
    else ok buf
