-- ===== src/V5/Header/Flags.antt =====
-- Which first bytes `FixedHeader.validate` accepts, and what the constructors put into them.
use mymq.Base.{
  ℕ, ◌*◌, ◌/◌, ◌%◌, ◌<◌, ◌≤◌, ◌≡◌, refl, ap, some, Bool, true, false, ◌&&◌, ◌||◌, ltb, ◌==◌,
  if◌then◌else◌, bit_and, arith,
}
use mymq.Base.Tables.{passes_below, passes_below_lem}
use mymq.Error.{Error, ErrorKind, ReasonCode, Result, ok, err, panic, malformed, protocol_desc}
use mymq.Types.VarU32
use mymq.V5.PacketType
use mymq.V5.PacketType.{PacketType}
use mymq.V5.Qos
use mymq.V5.Qos.{Qos}
use mymq.V5.Header.{
  FixedHeader, validate, unwrap, unwrap_ok, check_flags, is_qos, plain_arm, other_arms, limited,
  new, new_publish, new_pubrel, new_subscribe, new_unsubscribe, at_qos1, fixed_byte,
}

-- The flags of PUBLISH hold any QoS but 3. Those of PUBREL, SUBSCRIBE and UNSUBSCRIBE are 2, and
-- MQTT allows no other; `validate` lets 0 pass as well. All other packets have the flags 0.
abbrev pub allowed : ℕ → Bool
allowed b =
    let kind = b / 16 in
    let flags = b % 16 in
    if kind == 0
    then false
    else if kind == 3
    then ltb (flags % 8) 6
    else if kind == 6 || kind == 8 || kind == 10
    then flags == 2 || flags == 0
    else flags == 0

-- The masks of `validate`, as arithmetic on a byte.
masks : ℕ → Bool
masks b =
    bit_and b 1 == b % 2
    && bit_and b 6 / 2 == b / 2 % 4
    && bit_and b 8 == b / 8 % 2 * 8
    && bit_and b 240 / 16 == b / 16

masks_table : passes_below masks 256 ≡ true
unfolding passes_below masks
masks_table = refl

pub bits :
    (b : ℕ)
    → b < 256
    → (bit_and b 1 ≡ b % 2)
      × (bit_and b 6 / 2 ≡ b / 2 % 4)
      × (bit_and b 8 ≡ b / 8 % 2 * 8)
      × (bit_and b 240 / 16 ≡ b / 16)
unfolding masks
bits b h = ground (arith, passes_below_lem masks b 256 h masks_table)

is_malformed : Error → Bool
is_malformed e = elim e.kind [
  | ErrorKind.malformed_packet ↦ elim e.code [ some ReasonCode.malformed_packet ↦ true | _ ↦ false ]
  | _ ↦ false
]

is_malformed_sound : (e : Error) → is_malformed e ≡ true → e ≡ malformed
unfolding is_malformed
is_malformed_sound e h = ground arith

agrees : Bool → Result (Unit {0}) → Bool
agrees true (ok u) = true
agrees false (err e) = is_malformed e
agrees _ _ = false

agrees_sound :
    (b : Bool) (r : Result (Unit {0}))
    → agrees b r ≡ true
    → r ≡ (if b then ok tt else err malformed)
unfolding agrees
agrees_sound true (ok tt) h = refl
agrees_sound true (err e) h = cc
agrees_sound true panic h = cc
agrees_sound false (ok u) h = cc
agrees_sound false (err e) h = ap err (is_malformed_sound e h)
agrees_sound false panic h = cc

at_byte : ℕ → Bool
unfolding agrees
at_byte b = agrees (allowed b) (validate (record { byte1 = b; remaining_len = 0 }))

validate_table : passes_below at_byte 256 ≡ true
unfolding passes_below at_byte agrees is_malformed validate unwrap unwrap_ok check_flags is_qos
    plain_arm other_arms PacketType.try_from Qos.try_from Qos.to_u8
validate_table = refl

-- A byte is accepted or is a malformed packet, by its packet type and flags; no byte makes the code
-- panic.
pub validate-allowed :
    (fh : FixedHeader)
    → fh.byte1 < 256
    → validate fh ≡ (if allowed fh.byte1 then ok tt else err malformed)
unfolding validate unwrap at_byte
validate-allowed fh h =
    agrees_sound (allowed fh.byte1) (validate fh)
      (passes_below_lem at_byte fh.byte1 256 h validate_table)

-- What a constructor of a header with the length `n` promises.
abbrev pub Built : Result FixedHeader → ℕ → PacketType × Bool × Qos × Bool → Type 0
Built made n parts =
    (n ≤ VarU32.max_var_u32
      → (fh : FixedHeader) × (made ≡ ok fh)
        × (unwrap fh ≡ ok parts)
        × (validate fh ≡ ok tt)
        × (fh.byte1 < 256)
        × (fh.remaining_len ≡ n))
    × (VarU32.max_var_u32 < n → made ≡ err protocol_desc)

built :
    (b n : ℕ) {parts : PacketType × Bool × Qos × Bool}
    → (unwrap (record { byte1 = b; remaining_len = n }) ≡ ok parts)
    → (validate (record { byte1 = b; remaining_len = n }) ≡ ok tt)
    → b < 256
    → Built (limited b n) n parts
unfolding limited
built b n u v h = (
  λ le. (record { byte1 = b; remaining_len = n }, ground arith, u, v, h, refl),
  λ lt. ground arith,
)

-- `new` makes a header that unwraps to its packet type with all flags clear, which `validate`
-- accepts, when the length is at most the maximum of `VarU32`; otherwise it is a protocol error.
pub new-Built : (t : PacketType) (n : ℕ) → Built (new t n) n (t, false, Qos.at_most_once, false)
unfolding new PacketType.to_u8 validate unwrap unwrap_ok check_flags is_qos plain_arm other_arms
    PacketType.try_from Qos.try_from Qos.to_u8
new-Built PacketType.connect n = built _ n refl refl (omega arith)
new-Built PacketType.conn_ack n = built _ n refl refl (omega arith)
new-Built PacketType.publish n = built _ n refl refl (omega arith)
new-Built PacketType.pub_ack n = built _ n refl refl (omega arith)
new-Built PacketType.pub_rec n = built _ n refl refl (omega arith)
new-Built PacketType.pub_rel n = built _ n refl refl (omega arith)
new-Built PacketType.pub_comp n = built _ n refl refl (omega arith)
new-Built PacketType.subscribe n = built _ n refl refl (omega arith)
new-Built PacketType.sub_ack n = built _ n refl refl (omega arith)
new-Built PacketType.un_subscribe n = built _ n refl refl (omega arith)
new-Built PacketType.unsub_ack n = built _ n refl refl (omega arith)
new-Built PacketType.ping_req n = built _ n refl refl (omega arith)
new-Built PacketType.ping_resp n = built _ n refl refl (omega arith)
new-Built PacketType.disconnect n = built _ n refl refl (omega arith)
new-Built PacketType.auth n = built _ n refl refl (omega arith)

pub new_publish-Built :
    (retain : Bool) (qos : Qos) (dup : Bool) (n : ℕ)
    → Built (new_publish retain qos dup n) n (PacketType.publish, retain, qos, dup)
unfolding new_publish fixed_byte PacketType.to_u8 validate unwrap unwrap_ok check_flags is_qos
    plain_arm other_arms PacketType.try_from Qos.try_from Qos.to_u8
new_publish-Built true Qos.at_most_once true n = built _ n refl refl (omega arith)
new_publish-Built true Qos.at_most_once false n = built _ n refl refl (omega arith)
new_publish-Built true Qos.at_least_once true n = built _ n refl refl (omega arith)
new_publish-Built true Qos.at_least_once false n = built _ n refl refl (omega arith)
new_publish-Built true Qos.exactly_once true n = built _ n refl refl (omega arith)
new_publish-Built true Qos.exactly_once false n = built _ n refl refl (omega arith)
new_publish-Built false Qos.at_most_once true n = built _ n refl refl (omega arith)
new_publish-Built false Qos.at_most_once false n = built _ n refl refl (omega arith)
new_publish-Built false Qos.at_least_once true n = built _ n refl refl (omega arith)
new_publish-Built false Qos.at_least_once false n = built _ n refl refl (omega arith)
new_publish-Built false Qos.exactly_once true n = built _ n refl refl (omega arith)
new_publish-Built false Qos.exactly_once false n = built _ n refl refl (omega arith)

-- Each constructor makes a header of its packet type and flags, which `validate` accepts, when the
-- length is at most the maximum of `VarU32`; otherwise it is a protocol error.
pub constructors-Built :
    (t : PacketType) (retain dup : Bool) (qos : Qos) (n : ℕ)
    → Built (new t n) n (t, false, Qos.at_most_once, false)
      × Built (new_publish retain qos dup n) n (PacketType.publish, retain, qos, dup)
      × Built (new_pubrel n) n (PacketType.pub_rel, false, Qos.at_least_once, false)
      × Built (new_subscribe n) n (PacketType.subscribe, false, Qos.at_least_once, false)
      × Built (new_unsubscribe n) n (PacketType.un_subscribe, false, Qos.at_least_once, false)
unfolding new_pubrel new_subscribe new_unsubscribe at_qos1 fixed_byte PacketType.to_u8 validate
    unwrap unwrap_ok check_flags is_qos plain_arm other_arms PacketType.try_from Qos.try_from
    Qos.to_u8
constructors-Built t retain dup qos n = (
  new-Built t n,
  new_publish-Built retain qos dup n,
  built _ n refl refl (omega arith),
  built _ n refl refl (omega arith),
  built _ n refl refl (omega arith),
)
