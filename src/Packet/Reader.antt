-- ===== src/Packet/Reader.antt =====
-- `MQTTRead` of packet.rs: the state machine that cuts packets out of the bytes of a socket.

pub mod Framing
pub mod Arms
pub mod Rounds
pub mod Unbounded
use mymq.Base.{
  ℕ, ◌+◌, ◌-◌, Bool, true, false, List, [], ◌∷◌, ◌++◌, Option, none, some, length, take, drop,
  replicate, ltb, leb, ◌==◌, if◌then◌else◌,
}
use mymq.Error.{Error, ErrorKind, ReasonCode, Result, ok, err, panic, ◌>>=◌, ◌>>◌}
use mymq.Types.VarU32
use mymq.V5.Header.{FixedHeader}
use mymq.Packet.Socket.{
  Arrival, Answer, got, was_interrupted, would_block, was_failed, sock_read, disconnected,
}

pub data MqttRead : Type 0 where
  init : List ℕ → ℕ → MqttRead
  header : ℕ → List ℕ → ℕ → MqttRead
  remain : List ℕ → ℕ → FixedHeader → ℕ → MqttRead
  fin : List ℕ → List ℕ → FixedHeader → ℕ → MqttRead
  none_read : MqttRead

unfoldable pub new_read : ℕ → MqttRead
new_read max_size = init [] max_size

abbrev pub too_large : Error
too_large = record { kind = ErrorKind.malformed_packet; code = some ReasonCode.packet_too_large }

unfoldable pub check_packet_limit : ℕ → ℕ → Result (Unit {0})
check_packet_limit pkt_len max_size = if ltb max_size pkt_len then err too_large else ok tt

-- `data[1..].iter().skip_while(|b| **b >= 0x80).next()` finds something.
unfoldable pub has_last : List ℕ → Bool
has_last [] = false
has_last (b ∷ rest) = let later = has_last rest in if leb 0x80 b then later else true

-- `data[0]`, of data that is there.
unfoldable pub first_byte : List ℕ → ℕ
first_byte [] = 0
first_byte (b ∷ rest) = b

-- The length is there, so the packet is cut off, or the rest of it is awaited.
unfoldable pub framed : ℕ → List ℕ → ℕ → Result MqttRead
unfolding check_packet_limit
framed byte1 buf max_size = do
  (remaining_len, m) ← VarU32.decode (drop 1 buf)
  let pkt_len = 1 + m + remaining_len
  let fh : FixedHeader = record { byte1 = byte1; remaining_len = remaining_len }
  check_packet_limit pkt_len max_size
      >> (if leb pkt_len (length buf)
          then ok (fin (take pkt_len buf) (drop pkt_len buf) fh max_size)
          else ok (remain (buf ++ replicate (pkt_len - length buf) 0) (length buf) fh max_size))

unfoldable pub pre_read : MqttRead → Result (MqttRead × Bool)
unfolding check_packet_limit first_byte
pre_read (init buf max_size) =
    if ltb 1 (length buf)
    then elim (VarU32.decode (drop 1 buf)) [
      | panic ↦ panic
      | err e ↦ ok (init buf max_size, false)
      | ok (remaining_len, m) ↦
          let pkt_len = 1 + m + remaining_len in
          let fh : FixedHeader = record { byte1 = first_byte buf; remaining_len = remaining_len } in
          check_packet_limit pkt_len max_size
          >> (if leb pkt_len (length buf)
              then ok (fin (take pkt_len buf) (drop pkt_len buf) fh max_size, true)
              else ok (init buf max_size, false))
    ]
    else ok (init buf max_size, false)
pre_read val = ok (val, false)

-- The arms of `read`, given the answer of the socket.
unfoldable pub init_arm : List ℕ → ℕ → Answer → Result (MqttRead × Bool)
unfolding has_last framed first_byte
init_arm buf max_size (got []) = err disconnected
init_arm buf max_size (got (b ∷ bs)) =
    let buf' = buf ++ (b ∷ bs) in
    if has_last (drop 1 buf')
    then (framed (first_byte buf') buf' max_size >>= λ next. ok (next, false))
    else ok (header (first_byte buf') buf' max_size, false)
init_arm buf max_size was_interrupted = ok (init buf max_size, false)
init_arm buf max_size would_block = ok (init buf max_size, true)
init_arm buf max_size was_failed = err disconnected

unfoldable pub header_arm : ℕ → List ℕ → ℕ → Answer → Result (MqttRead × Bool)
unfolding has_last framed
header_arm byte1 buf max_size (got []) = err disconnected
header_arm byte1 buf max_size (got (b ∷ bs)) =
    let buf' = buf ++ (b ∷ bs) in
    if has_last (drop 1 buf')
    then (framed byte1 buf' max_size >>= λ next. ok (next, false))
    else ok (header byte1 buf' max_size, false)
header_arm byte1 buf max_size was_interrupted = ok (header byte1 buf max_size, false)
header_arm byte1 buf max_size would_block = ok (header byte1 buf max_size, true)
header_arm byte1 buf max_size was_failed = err disconnected

-- The bytes stand in `buf` from `start` on.
unfoldable pub store : List ℕ → ℕ → List ℕ → List ℕ
store buf start bs = take start buf ++ (bs ++ drop (start + length bs) buf)

unfoldable pub remain_arm : List ℕ → ℕ → FixedHeader → ℕ → Answer → Result (MqttRead × Bool)
unfolding store
remain_arm buf start fh max_size (got []) = err disconnected
remain_arm buf start fh max_size (got (b ∷ bs)) =
    let n = length (b ∷ bs) in
    let buf' = store buf start (b ∷ bs) in
    if start + n == length buf
    then ok (fin buf' [] fh max_size, false)
    else if ltb (start + n) (length buf)
    then ok (remain buf' (start + n) fh max_size, false)
    else panic
remain_arm buf start fh max_size was_interrupted = ok (remain buf start fh max_size, false)
remain_arm buf start fh max_size would_block = ok (remain buf start fh max_size, true)
remain_arm buf start fh max_size was_failed = err disconnected

-- (self, would_block), and the socket as it is left. The scratch buffer has five bytes.
unfoldable pub arms : MqttRead → List Arrival → Result (MqttRead × Bool) × List Arrival
unfolding init_arm header_arm remain_arm sock_read
arms (init buf max_size) sock =
    let (answer, rest) = sock_read 5 sock in (init_arm buf max_size answer, rest)
arms (header byte1 buf max_size) sock =
    let (answer, rest) = sock_read 5 sock in (header_arm byte1 buf max_size answer, rest)
arms (remain buf start fh max_size) sock =
    let (answer, rest) = sock_read (length buf - start) sock in
    (remain_arm buf start fh max_size answer, rest)
arms (fin buf rem fh max_size) sock = (ok (fin buf rem fh max_size, false), sock)
arms none_read sock = (panic, sock)

-- What `read` does with the outcome of `pre_read`.
unfoldable pub after_pre_read :
    List Arrival → Result (MqttRead × Bool) → Result (MqttRead × Bool) × List Arrival
unfolding arms
after_pre_read sock panic = (panic, sock)
after_pre_read sock (err e) = (err e, sock)
after_pre_read sock (ok (val, true)) = (ok (val, false), sock)
after_pre_read sock (ok (val, false)) = arms val sock

unfoldable pub read : MqttRead → List Arrival → Result (MqttRead × Bool) × List Arrival
unfolding pre_read after_pre_read
read self sock = after_pre_read sock (pre_read self)

-- Any other state is `unreachable!`.
unfoldable pub reset : MqttRead → Result MqttRead
reset (fin buf rem fh max_size) = ok (init rem max_size)
reset (init buf max_size) = ok (init buf max_size)
reset val = panic
