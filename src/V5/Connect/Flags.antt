-- ===== src/V5/Connect/Flags.antt =====
-- `ConnectFlags` of connect.rs, a byte.
pub mod WillQos
use mymq.Base.{ℕ, ◌/◌, Bool, List, [], ◌∷◌, ltb, bit_and, bit_or, if◌then◌else◌}
use mymq.Error.{Result, ok, err, malformed, ◌>>=◌, ◌>>◌}
use mymq.Types.Blob.{Decoder, dec_field}
use mymq.Types.U8
use mymq.V5.Header.{unwrap_ok}
use mymq.V5.Qos
use mymq.V5.Qos.{Qos}

abbrev pub clean_start : ℕ
clean_start = 0x02

abbrev pub will_flag : ℕ
will_flag = 0x04

abbrev pub will_qos_mask : ℕ
will_qos_mask = 0x18

abbrev pub will_retain : ℕ
will_retain = 0x20

abbrev pub username_flag : ℕ
username_flag = 0x40

abbrev pub password_flag : ℕ
password_flag = 0x80

-- `ConnectFlags::new`, which joins the flags of a list.
unfoldable pub new_flags : List ℕ → ℕ → ℕ
new_flags [] acc = acc
new_flags (flag ∷ flags) acc = new_flags flags (bit_or acc flag)

-- Whether a bit of the flags is set.
abbrev pub has : ℕ → ℕ → Bool
has mask flags = ltb 0 (bit_and flags mask)

-- `ConnectFlags::unwrap`. In Rust `>>` binds tighter than `&`, so that the mask is shifted and not
-- what it selects.
unfoldable pub unwrap_flags : ℕ → Result (Bool × Bool × Qos × Bool)
unfolding unwrap_ok Qos.try_from
unwrap_flags flags = do
  will_qos ← unwrap_ok (Qos.try_from (bit_and flags (will_qos_mask / 8)))
  ok (has clean_start flags, has will_flag flags, will_qos, has will_retain flags)

unfoldable pub is_will_flag : ℕ → Bool
is_will_flag flags = has will_flag flags

unfoldable pub is_username : ℕ → Bool
is_username flags = has username_flag flags

unfoldable pub is_password : ℕ → Bool
is_password flags = has password_flag flags

unfoldable pub check_flags : ℕ → Result (Unit {0})
check_flags flags = if has 1 flags then err malformed else ok tt

unfoldable pub decode_flags : Decoder ℕ
unfolding dec_field U8.decode check_flags
decode_flags stream = do
  (flags, n) ← dec_field U8.decode stream 0
  check_flags flags >> ok (flags, n)
