-- ===== src/V5/Subscribe/Opt.antt =====
-- `SubscriptionOpt` and `RetainForwardRule` of sub.rs
pub mod Rule
use mymq.Base.{ℕ, ◌*◌, ◌/◌, ◌%◌, Bool, true, false, ltb, ◌==◌, if◌then◌else◌, bit_and, bit_or}
use mymq.Error.{Result, ok, err, malformed, ◌>>=◌, ◌>>◌}
use mymq.Types.Blob.{Blob, Decoder, dec_field}
use mymq.Types.U8
use mymq.V5.Header.{unwrap_ok}
use mymq.V5.Qos
use mymq.V5.Qos.{Qos}
use mymq.V5.Subscription.{RetainForwardRule, on_every_subscribe, on_new_subscribe, never}

unfoldable pub rule_of : ℕ → Result RetainForwardRule
rule_of val =
    if val == 0
    then ok on_every_subscribe
    else if val == 1
    then ok on_new_subscribe
    else if val == 2
    then ok never
    else err malformed

unfoldable pub rule_to_u8 : RetainForwardRule → ℕ
rule_to_u8 on_every_subscribe = 0
rule_to_u8 on_new_subscribe = 1
rule_to_u8 never = 2

-- `SubscriptionOpt::new`, a byte.
unfoldable pub new_opt : RetainForwardRule → Bool → Bool → Qos → ℕ
unfolding rule_to_u8 Qos.to_u8
new_opt rule rap nl qos =
    let rap_bit = if rap then 8 else 0 in
    let nl_bit = if nl then 4 else 0 in
    bit_or (bit_or (bit_or (rule_to_u8 rule * 16 % 256) rap_bit) nl_bit) (Qos.to_u8 qos)

-- `SubscriptionOpt::unwrap`; `RETAIN_HANDLING` is `0b0011_0000`.
unfoldable pub unwrap_opt : ℕ → Result (RetainForwardRule × Bool × Bool × Qos)
unfolding rule_of unwrap_ok Qos.try_from
unwrap_opt opt = do
  qos ← unwrap_ok (Qos.try_from (bit_and opt 3))
  let nl = ltb 0 (bit_and opt 4)
  let rap = ltb 0 (bit_and opt 8)
  rule ← unwrap_ok (rule_of (bit_and (opt / 16) 0x30))
  ok (rule, rap, nl, qos)

-- The checks of `Subscribe::validate` on one filter.
unfoldable pub check_opt : ℕ → Result (Unit {0})
unfolding Qos.try_from
check_opt opt =
    if ltb 0 (bit_and opt 0xc0)
    then err malformed
    else if bit_and opt 0x30 / 16 == 3
    then err malformed
    else (Qos.try_from (bit_and opt 3) >>= λ qos. ok tt)
