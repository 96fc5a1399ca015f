-- ===== src/V5/PacketType.antt =====
-- `PacketType` of v5/mod.rs, and its number on the wire.
use mymq.Base.{ℕ, ◌≡◌, refl, ◌==◌, if◌then◌else◌, arith}
use mymq.Error.{Result, ok, err, malformed}

pub data PacketType : Type 0 where
  connect conn_ack publish pub_ack pub_rec pub_rel pub_comp subscribe sub_ack un_subscribe :
      PacketType
  unsub_ack ping_req ping_resp disconnect auth : PacketType

unfoldable pub to_u8 : PacketType → ℕ
to_u8 connect = 1
to_u8 conn_ack = 2
to_u8 publish = 3
to_u8 pub_ack = 4
to_u8 pub_rec = 5
to_u8 pub_rel = 6
to_u8 pub_comp = 7
to_u8 subscribe = 8
to_u8 sub_ack = 9
to_u8 un_subscribe = 10
to_u8 unsub_ack = 11
to_u8 ping_req = 12
to_u8 ping_resp = 13
to_u8 disconnect = 14
to_u8 auth = 15

unfoldable pub try_from : ℕ → Result PacketType
try_from val =
    if val == 1
    then ok connect
    else if val == 2
    then ok conn_ack
    else if val == 3
    then ok publish
    else if val == 4
    then ok pub_ack
    else if val == 5
    then ok pub_rec
    else if val == 6
    then ok pub_rel
    else if val == 7
    then ok pub_comp
    else if val == 8
    then ok subscribe
    else if val == 9
    then ok sub_ack
    else if val == 10
    then ok un_subscribe
    else if val == 11
    then ok unsub_ack
    else if val == 12
    then ok ping_req
    else if val == 13
    then ok ping_resp
    else if val == 14
    then ok disconnect
    else if val == 15
    then ok auth
    else err malformed

pub try_from-to_u8 : (t : PacketType) → try_from (to_u8 t) ≡ ok t
unfolding try_from to_u8
try_from-to_u8 connect = refl
try_from-to_u8 conn_ack = refl
try_from-to_u8 publish = refl
try_from-to_u8 pub_ack = refl
try_from-to_u8 pub_rec = refl
try_from-to_u8 pub_rel = refl
try_from-to_u8 pub_comp = refl
try_from-to_u8 subscribe = refl
try_from-to_u8 sub_ack = refl
try_from-to_u8 un_subscribe = refl
try_from-to_u8 unsub_ack = refl
try_from-to_u8 ping_req = refl
try_from-to_u8 ping_resp = refl
try_from-to_u8 disconnect = refl
try_from-to_u8 auth = refl

pub to_u8_of_try_from : (val : ℕ) (t : PacketType) → try_from val ≡ ok t → to_u8 t ≡ val
unfolding try_from to_u8
to_u8_of_try_from val t h = ground arith
