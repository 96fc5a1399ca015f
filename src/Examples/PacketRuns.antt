-- ===== src/Examples/PacketRuns.antt =====
-- Runs of the state machines on a socket.
use mymq.Base.{false, List, [], ◌∷◌, ◌++◌, ◌≡◌, arith}
use mymq.Error.{ok}
use mymq.Packet.Socket.{Arrival, bytes, interrupted, closed, pending, accepts}
use mymq.Packet.Reader
use mymq.Packet.Reader.Framing.{IsRead, held, Keeps}
use mymq.Packet.Reader.Arms.{read-Keeps}
use mymq.Packet.Reader.Rounds.{rounds, Kept, rounds-Kept}
use mymq.Packet.Reader.Unbounded.{header_unbounded}
use mymq.Packet.Writer
use mymq.Packet.Writer.Delivery.{unsent, IsWrite, Puts, write-Puts}

-- Two PINGREQ in pieces, with an interrupt in between.
abbrev pings : List Arrival
pings = bytes (192 ∷ []) ∷ interrupted ∷ bytes (0 ∷ 192 ∷ []) ∷ bytes (0 ∷ []) ∷ closed ∷ []

abbrev fresh : Reader.MqttRead
fresh = Reader.init [] 16

fresh-IsRead : IsRead fresh
unfolding IsRead
fresh-IsRead = tt

read-Keeps_example :
    Keeps (held fresh ++ pending pings) (Reader.read fresh pings).0 (Reader.read fresh pings).1
read-Keeps_example = read-Keeps fresh pings fresh-IsRead

rounds-Kept_example : Kept (held fresh ++ pending pings) (rounds 5 fresh pings)
rounds-Kept_example = rounds-Kept 5 fresh pings fresh-IsRead

-- The limit is 4 bytes, and there are five already.
header_unbounded_example :
    Reader.read (Reader.header 48 (48 ∷ 128 ∷ 128 ∷ 128 ∷ 128 ∷ []) 4) (bytes (255 ∷ []) ∷ [])
    ≡ (ok (Reader.header 48 (48 ∷ 128 ∷ 128 ∷ 128 ∷ 128 ∷ 255 ∷ []) 4, false), [])
header_unbounded_example =
    header_unbounded 48 255 4 (128 ∷ 128 ∷ 128 ∷ 128 ∷ []) [] []
      (omega arith, (omega arith, (omega arith, (omega arith, (omega arith, tt))))) (omega arith)

abbrev half : Writer.MqttWrite
half = Writer.remain (1 ∷ 2 ∷ 3 ∷ []) 1 16

write-Puts_example :
    Puts (unsent half) (Writer.write half (accepts 1 ∷ [])).0 (Writer.write half (accepts 1 ∷ [])).1
write-Puts_example = write-Puts half (accepts 1 ∷ []) (unfold IsWrite in omega arith)
