-- ===== src/V5/Auth/Code.antt =====
-- `AuthReasonCode` of auth.rs, and its number on the wire.
use mymq.Base.{ℕ, ◌≡◌, refl, ◌==◌, if◌then◌else◌}
use mymq.Error.{Result, ok, err, protocol}

pub data AuthReasonCode : Type 0 where
  success continue_authentication re_authenticate : AuthReasonCode

unfoldable pub to_u8 : AuthReasonCode → ℕ
to_u8 success = 0x00
to_u8 continue_authentication = 0x18
to_u8 re_authenticate = 0x19

unfoldable pub try_from : ℕ → Result AuthReasonCode
try_from val =
    if val == 0x00
    then ok success
    else if val == 0x18
    then ok continue_authentication
    else if val == 0x19
    then ok re_authenticate
    else err protocol

pub try_from-to_u8 : (code : AuthReasonCode) → try_from (to_u8 code) ≡ ok code
unfolding try_from to_u8
try_from-to_u8 success = refl
try_from-to_u8 continue_authentication = refl
try_from-to_u8 re_authenticate = refl
