-- ===== src/Packet/Parse.antt =====
-- `MQTTRead::parse` of packet.rs: the packet that the reader has gathered.
pub mod Panics
pub mod Whole
use mymq.Base.{length, ◌==◌, if◌then◌else◌}
use mymq.Error.{Result, ok, err, panic, malformed, ◌>>=◌}
use mymq.V5.Header
use mymq.V5.Packet.{Packet, decode_as}
use mymq.Packet.Reader.{MqttRead, init, header, remain, fin, none_read}

unfoldable pub parse : MqttRead → Result Packet
unfolding Header.unwrap decode_as
parse (fin buf rem fh max_size) = do
  (packet_type, retain, qos, dup) ← Header.unwrap fh
  (packet, n) ← decode_as packet_type buf
  if n == length buf then ok packet else err malformed
parse (init buf max_size) = panic
parse (header byte1 buf max_size) = panic
parse (remain buf start fh max_size) = panic
parse none_read = panic
