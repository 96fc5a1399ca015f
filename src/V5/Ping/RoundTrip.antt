-- ===== src/V5/Ping/RoundTrip.antt =====
-- A ping is read back as it was written.
use mymq.Base.{◌≤◌, false, length, ◌≡◌, refl, arith}
use mymq.Error.{ok}
use mymq.Types.Blob.{small_of, as_ref-small_of, Reads, dec_field-first}
use mymq.Types.VarU32
use mymq.V5.Qos.{Qos}
use mymq.V5.PacketType.{PacketType}
use mymq.V5.Header
use mymq.V5.Header.{FixedHeader}
use mymq.V5.Header.Flags.{new-Built}
use mymq.V5.Header.Wire.{header_bytes, encode-header_bytes, decode-Reads}
use mymq.V5.Frame.Whole.{header_field, Framed}
use mymq.V5.Ping.{decode, encode, copy_two}

-- A valid header alone is a ping, whatever its packet type and its length say.
pub decode_header :
    (fh : FixedHeader)
    → fh.remaining_len ≤ VarU32.max_var_u32
    → Header.validate fh ≡ ok tt
    → Reads decode (header_bytes fh) tt
unfolding decode
decode_header fh h v = record {
  at = λ rest. rw (dec_field-first (decode-Reads fh h v) rest, v) refl;
}

-- A ping of either type is written in two bytes, and is read back.
pub ping-Framed : (t : PacketType) → Framed (λ (u : Unit {0}). encode t) decode t tt
unfolding encode copy_two
ping-Framed t =
    let small : 0 ≤ VarU32.max_var_u32 = omega arith in
    let h = header_field (Header.new t) 0 _ small (new-Built t 0) in
    let bytes = header_bytes h.fh in
    let two : length bytes ≡ 2 = rw h.len refl in
    let as_bytes = as_ref-small_of bytes in
    let r = decode-Reads h.fh h.le h.valid in
    record {
      written = record {
        blob = small_of bytes;
        writes = rw (h.makes, encode-header_bytes h.fh h.le h.valid, as_bytes, two) refl;
        reads = rw as_bytes (decode_header h.fh h.le h.valid);
      };
      fh = h.fh;
      retain = false;
      qos = Qos.at_most_once;
      dup = false;
      head = λ rest. (length bytes, rw as_bytes (r.at rest));
      parts_of = h.parts_of;
    }
