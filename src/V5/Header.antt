-- ===== src/V5/Header.antt =====
-- `FixedHeader` of v5/mod.rs: the first byte of a packet and the length of what follows.
pub mod Flags
pub mod Wire
use mymq.Base.{
  ℕ, ◌+◌, ◌*◌, ◌/◌, ◌%◌, ◌^◌, List, [], ◌∷◌, ◌++◌, Bool, true, false, not, ◌&&◌, ◌||◌, ltb, leb,
  ◌==◌, if◌then◌else◌, length, bit_and, bit_or,
}
use mymq.Error.{Result, ok, err, panic, malformed, protocol_desc, ◌>>=◌, ◌>>◌}
use mymq.Types.Blob.{Blob, small_of, as_ref, Decoder, dec_field}
use mymq.Types.U8
use mymq.Types.VarU32
use mymq.V5.PacketType
use mymq.V5.PacketType.{PacketType}
use mymq.V5.Qos
use mymq.V5.Qos.{Qos}

pub record FixedHeader : Type 0 where
  pub byte1 : ℕ
  pub remaining_len : ℕ

-- The macro `fixed_byte!`; the shifts are those of a `u8`.
unfoldable pub fixed_byte : ℕ → Bool → Qos → Bool → ℕ
unfolding Qos.to_u8
fixed_byte pkt_type retain qos dup =
    let retain_bit = if retain then 1 else 0 in
    let qos_bits = Qos.to_u8 qos * 2 % 256 in
    let dup_bit = if dup then 8 else 0 in
    bit_or (bit_or (bit_or (pkt_type * 16 % 256) retain_bit) qos_bits) dup_bit

-- Each constructor refuses a length above the maximum.
limited : ℕ → ℕ → Result FixedHeader
limited byte1 remaining_len =
    if ltb VarU32.max_var_u32 remaining_len
    then err protocol_desc
    else ok (record { byte1 = byte1; remaining_len = remaining_len })

unfoldable pub new : PacketType → ℕ → Result FixedHeader
unfolding limited PacketType.to_u8
new pkt_type remaining_len = limited (PacketType.to_u8 pkt_type * 16 % 256) remaining_len

unfoldable pub new_publish : Bool → Qos → Bool → ℕ → Result FixedHeader
unfolding limited fixed_byte PacketType.to_u8
new_publish retain qos dup remaining_len =
    limited (fixed_byte (PacketType.to_u8 PacketType.publish) retain qos dup) remaining_len

-- `new_pubrel`, `new_subscribe` and `new_unsubscribe`, which set QoS 1.
at_qos1 : PacketType → ℕ → Result FixedHeader
unfolding limited fixed_byte PacketType.to_u8
at_qos1 pkt_type remaining_len =
    limited (fixed_byte (PacketType.to_u8 pkt_type) false Qos.at_least_once false) remaining_len

unfoldable pub new_pubrel : ℕ → Result FixedHeader
unfolding at_qos1
new_pubrel remaining_len = at_qos1 PacketType.pub_rel remaining_len

unfoldable pub new_subscribe : ℕ → Result FixedHeader
unfolding at_qos1
new_subscribe remaining_len = at_qos1 PacketType.subscribe remaining_len

unfoldable pub new_unsubscribe : ℕ → Result FixedHeader
unfolding at_qos1
new_unsubscribe remaining_len = at_qos1 PacketType.un_subscribe remaining_len

-- `Result::unwrap`
unfoldable pub unwrap_ok : {A : Type 0} → Result A → Result A
unwrap_ok (ok a) = ok a
unwrap_ok (err e) = panic
unwrap_ok panic = panic

unfoldable pub unwrap : FixedHeader → Result (PacketType × Bool × Qos × Bool)
unfolding unwrap_ok PacketType.try_from Qos.try_from
unwrap fh = do
  pkt_type ← unwrap_ok (PacketType.try_from (fh.byte1 / 16))
  let retain = ltb 0 (bit_and fh.byte1 1)
  qos ← unwrap_ok (Qos.try_from (bit_and fh.byte1 6 / 2))
  let dup = ltb 0 (bit_and fh.byte1 8)
  ok (pkt_type, retain, qos, dup)

-- The length of the fixed header.
unfoldable pub len : FixedHeader → Result ℕ
len fh =
    if ltb fh.remaining_len 128
    then ok 2
    else if ltb fh.remaining_len 16384
    then ok 3
    else if ltb fh.remaining_len 2097152
    then ok 4
    else if ltb fh.remaining_len VarU32.max_var_u32
    then ok 5
    else err malformed

unfoldable pub is_qos : Qos → Qos → Bool
unfolding Qos.to_u8
is_qos p q = Qos.to_u8 p == Qos.to_u8 q

-- The last two arms of the match in `validate`.
other_arms : Bool → Qos → Bool → Result (Unit {0})
unfolding is_qos
other_arms retain qos dup =
    if retain || dup || not (is_qos qos Qos.at_most_once) then err malformed else ok tt

-- An arm that is guarded by a QoS and two clear flags.
plain_arm : Qos → Bool → Qos → Bool → Result (Unit {0})
unfolding is_qos other_arms
plain_arm wanted retain qos dup =
    if is_qos qos wanted && not retain && not dup then ok tt else other_arms retain qos dup

unfoldable pub check_flags : PacketType × Bool × Qos × Bool → Result (Unit {0})
unfolding plain_arm other_arms
check_flags (PacketType.connect, retain, qos, dup) = plain_arm Qos.at_most_once retain qos dup
check_flags (PacketType.conn_ack, retain, qos, dup) = plain_arm Qos.at_most_once retain qos dup
check_flags (PacketType.publish, retain, qos, dup) = ok tt
check_flags (PacketType.pub_ack, retain, qos, dup) = plain_arm Qos.at_most_once retain qos dup
check_flags (PacketType.pub_rec, retain, qos, dup) = plain_arm Qos.at_most_once retain qos dup
check_flags (PacketType.pub_rel, retain, qos, dup) = plain_arm Qos.at_least_once retain qos dup
check_flags (PacketType.pub_comp, retain, qos, dup) = plain_arm Qos.at_most_once retain qos dup
check_flags (PacketType.subscribe, retain, qos, dup) = plain_arm Qos.at_least_once retain qos dup
check_flags (PacketType.sub_ack, retain, qos, dup) = plain_arm Qos.at_most_once retain qos dup
check_flags (PacketType.un_subscribe, retain, qos, dup) = plain_arm Qos.at_least_once retain qos dup
check_flags (PacketType.unsub_ack, retain, qos, dup) = plain_arm Qos.at_most_once retain qos dup
check_flags (PacketType.disconnect, retain, qos, dup) = plain_arm Qos.at_most_once retain qos dup
check_flags (PacketType.auth, retain, qos, dup) = plain_arm Qos.at_most_once retain qos dup
check_flags (PacketType.ping_req, retain, qos, dup) = other_arms retain qos dup
check_flags (PacketType.ping_resp, retain, qos, dup) = other_arms retain qos dup

unfoldable pub validate : FixedHeader → Result (Unit {0})
unfolding unwrap check_flags PacketType.try_from Qos.try_from
validate fh = do
  qos ← Qos.try_from (bit_and fh.byte1 6 / 2)
  pkt_type ← PacketType.try_from (bit_and fh.byte1 240 / 16)
  parts ← unwrap fh
  check_flags parts

unfoldable pub decode : Decoder FixedHeader
unfolding dec_field U8.decode VarU32.decode validate
decode stream = do
  (byte1, n) ← dec_field U8.decode stream 0
  (remaining_len, m) ← dec_field VarU32.decode stream n
  let fh : FixedHeader = record { byte1 = byte1; remaining_len = remaining_len }
  validate fh >> ok (fh, m)

unfoldable pub encode : FixedHeader → Result Blob
unfolding validate U8.encode VarU32.encode as_ref small_of
encode fh = do
  _ ← validate fh
  byte1 ← U8.encode fh.byte1
  remaining_len ← VarU32.encode fh.remaining_len
  ok (small_of (as_ref byte1 ++ as_ref remaining_len))
