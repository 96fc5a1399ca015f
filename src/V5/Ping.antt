-- ===== src/V5/Ping.antt =====
-- ping.rs: PINGREQ and PINGRESP, a fixed header and nothing else.
pub mod RoundTrip
pub mod Safe
use mymq.Base.{ℕ, List, length, ◌==◌, if◌then◌else◌}
use mymq.Error.{Result, ok, panic, ◌>>=◌}
use mymq.Types.Blob.{Blob, as_ref, small_of, Decoder, dec_field}
use mymq.V5.PacketType.{PacketType}
use mymq.V5.Header

-- `decode` of either: any valid header will do.
unfoldable pub decode : Decoder (Unit {0})
unfolding dec_field Header.decode Header.validate
decode stream = do (fh, n) ← dec_field Header.decode stream 0; _ ← Header.validate fh; ok (tt, n)

-- `data[..2].copy_from_slice(…)`, which panics at another length.
copy_two : List ℕ → Result Blob
copy_two bytes = if length bytes == 2 then ok (small_of bytes) else panic

-- `encode` of the packet of the given type.
unfoldable pub encode : PacketType → Result Blob
unfolding copy_two as_ref
encode packet_type = do
  fh ← Header.new packet_type 0
  blob ← Header.encode fh
  copy_two (as_ref blob)
