-- ===== src/V5/Ping/Safe.antt =====
-- PINGREQ and PINGRESP are read without a panic.
use mymq.Base.{ℕ, List}
use mymq.Error.Ensures.{NoPanic}
use mymq.V5.PacketType.{PacketType}
use mymq.V5.Frame.Received.{Received}
use mymq.V5.Ping.{decode}

pub decode-NoPanic :
    (t : PacketType) (stream : List ℕ) → Received t stream → NoPanic (decode stream)
unfolding decode
decode-NoPanic t stream r = rw (r.head, r.valid) tt
