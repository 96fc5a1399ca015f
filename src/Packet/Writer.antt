-- ===== src/Packet/Writer.antt =====
-- `MQTTWrite` of packet.rs: the state machine that writes a packet to a socket.
pub mod Delivery
use mymq.Base.{
  ℕ, ◌+◌, ◌-◌, Bool, true, false, List, [], ◌∷◌, ◌++◌, length, take, drop, ltb, leb, ◌==◌,
  if◌then◌else◌,
}
use mymq.Error.{Result, ok, err, panic}
use mymq.Packet.Socket.{
  Room, Sent, wrote, write_was_interrupted, write_would_block, write_was_failed, sock_write,
  disconnected,
}

pub data MqttWrite : Type 0 where
  init : List ℕ → ℕ → MqttWrite
  remain : List ℕ → ℕ → ℕ → MqttWrite
  fin : List ℕ → ℕ → MqttWrite
  none_write : MqttWrite

unfoldable pub new_write : List ℕ → ℕ → MqttWrite
new_write buf max_size = init buf max_size

-- The match on the answer in the arm of `Init`.
unfoldable pub init_sent : List ℕ → ℕ → Sent → Result (MqttWrite × Bool)
init_sent buf max_size (wrote n) =
    if n == 0
    then err disconnected
    else if n == length buf
    then ok (fin buf max_size, false)
    else if ltb n (length buf)
    then ok (remain buf n max_size, false)
    else panic
init_sent buf max_size write_was_interrupted = ok (remain buf 0 max_size, false)
init_sent buf max_size write_would_block = ok (remain buf 0 max_size, true)
init_sent buf max_size write_was_failed = err disconnected

-- The match on the answer in the arm of `Remain`.
unfoldable pub remain_sent : List ℕ → ℕ → ℕ → Sent → Result (MqttWrite × Bool)
remain_sent buf start max_size (wrote n) =
    if n == 0
    then err disconnected
    else if start + n == length buf
    then ok (fin buf max_size, false)
    else if ltb (start + n) (length buf)
    then ok (remain buf (start + n) max_size, false)
    else panic
remain_sent buf start max_size write_was_interrupted = ok (remain buf start max_size, false)
remain_sent buf start max_size write_would_block = ok (remain buf start max_size, true)
remain_sent buf start max_size write_was_failed = err disconnected

-- The outcome, the bytes that went to the socket, and the socket as it is left.
unfoldable pub write : MqttWrite → List Room → Result (MqttWrite × Bool) × List ℕ × List Room
unfolding init_sent remain_sent sock_write
write (init buf max_size) sock =
    let (sent, out, rest) = sock_write buf sock in
    if ltb max_size (length buf)
    then (ok (fin buf max_size, false), [], sock)
    else if length buf == 0
    then (ok (fin buf max_size, false), [], sock)
    else (init_sent buf max_size sent, out, rest)
write (remain buf start max_size) sock =
    let (sent, out, rest) = sock_write (drop start buf) sock in
    if length (drop start buf) == 0
    then (ok (fin buf max_size, false), [], sock)
    else (remain_sent buf start max_size sent, out, rest)
write (fin buf max_size) sock = (ok (fin buf max_size, false), [], sock)
write none_write sock = (panic, [], sock)

-- `Remain` and `None` are `unreachable!`.
unfoldable pub reset : MqttWrite → List ℕ → Result MqttWrite
reset (init buf max_size) bytes = ok (init bytes max_size)
reset (fin buf max_size) bytes = ok (init bytes max_size)
reset val bytes = panic
