-- ===== src/Packet/Parse/Whole.antt =====
-- `parse` gives back the packet whose bytes the reader has gathered.
use mymq.Base.{ℕ, List, [], length, true, ◌==◌, ◌≡◌, refl, arith, append-nil}
use mymq.Error.{ok, first_step}
use mymq.Types.Blob.{Blob, as_ref}
use mymq.V5.Header
use mymq.V5.Header.{FixedHeader}
use mymq.V5.Packet
use mymq.V5.Packet.{Packet, decode_as}
use mymq.V5.Packet.RoundTrip.{IsPacket, packet-Written}
use mymq.Packet.Reader.{fin}
use mymq.Packet.Parse.{parse}

-- What a reader that has gathered the bytes makes of them.
abbrev pub Parses : List ℕ → Packet → Type 0
Parses buf packet =
    (fh : FixedHeader) × (taken : ℕ) × (Header.decode buf ≡ ok (fh, taken))
    × ((rem : List ℕ) (max_size : ℕ) → parse (fin buf rem fh max_size) ≡ ok packet)

parses :
    (buf : List ℕ) (packet : Packet)
    → Packet.decode buf ≡ ok (packet, length buf)
    → Parses buf packet
unfolding Packet.decode parse
parses buf packet e =
    let ((fh, taken), e1, d1) = first_step (Header.decode buf) e in
    let ((t, retain, qos, dup), e2, d2) = first_step (Header.unwrap fh) e1 in
    let whole : (length buf == length buf) ≡ true = ground arith in
    (fh, taken, d1, λ rem max_size. rw (d2, e2, whole) refl)

-- A valid packet is written, and `parse` returns it when the reader has gathered what was written
-- and has decoded its header, whatever else the reader holds and whatever its limit.
pub parse-Written :
    (packet : Packet)
    → IsPacket packet
    → (blob : Blob) × (Packet.encode packet ≡ ok blob) × Parses (as_ref blob) packet
parse-Written packet h =
    let w = packet-Written packet h in
    let buf = as_ref w.blob in
    let e : Packet.decode buf ≡ ok (packet, length buf) = rw (append-nil buf) at (w.reads.at []) in
    (w.blob, w.writes, parses buf packet e)
