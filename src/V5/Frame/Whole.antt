-- ===== src/V5/Frame/Whole.antt =====
-- Lists of properties and packets, whole: they are read back as they were written.
use mymq.Base.{
  ◌∙◌, ℕ, ◌+◌, ◌≤◌, ◌^◌, Bool, true, false, List, [], ◌++◌, Option, none, some, length, ltb, ◌==◌,
  ◌≡◌, refl, arith, append_assoc, length-append, All,
}
use mymq.Error.{Result, ok, ◌>>=◌}
use mymq.Types.Blob.{
  Blob, large, as_ref, as_ref-small_of, small_of, Decoder, Reads, Ahead, two_parts,
}
use mymq.Types.VarU32
use mymq.Types.VarU32.Laws.{bytes_of, encode-bytes_of, decode-bytes_of}
use mymq.Types.Written.{Written}
use mymq.V5.Qos.{Qos}
use mymq.V5.PacketType.{PacketType}
use mymq.V5.Header
use mymq.V5.Header.{FixedHeader}
use mymq.V5.Header.Flags.{Built}
use mymq.V5.Header.Wire.{header_bytes, encode-header_bytes, decode-Reads}
use mymq.V5.Property.{Property}
use mymq.V5.Property.RoundTrip.{IsProperty}
use mymq.V5.Frame.{
  to_u32, insert_property_len, insert_fixed_header, close_props, close_packet, enc_opt_props,
  decode_props, dec_props,
}
use mymq.V5.Frame.Lists.{Encoded-length, set_all, decode_props-Reads, insert_front_lem}
use mymq.V5.Frame.Puts.{Puts}

-- The bytes of a list of properties, and what is read off them.
pub record PropBytes {P : Type 0} (enc : P → Result Blob) (dec : Decoder P) (props : P)
    : Type 0 where
  pub bytes : List ℕ
  pub some_there : 1 ≤ length bytes
  pub fits : length bytes ≤ VarU32.max_var_u32
  pub writes : enc props ≡ ok (large (bytes_of (length bytes) ++ bytes))
  pub reads : Reads dec (bytes_of (length bytes) ++ bytes) props

close_props_lem :
    (bytes : List ℕ)
    → length bytes ≤ VarU32.max_var_u32
    → close_props bytes ≡ ok (large (bytes_of (length bytes) ++ bytes))
close_props_lem bytes fits =
    let small : ltb (length bytes) (2 ^ 32) ≡ true = ground arith in
    unfold close_props insert_property_len to_u32 in
    rw
      (
        small,
        encode-bytes_of (length bytes) fits,
        as_ref-small_of (bytes_of (length bytes)),
        insert_front_lem (bytes_of (length bytes)) bytes,
      )
      refl

-- A writer of properties whose list `decode` makes into `v` again.
pub props_bytes :
    {P : Type 0} {enc : P → Result Blob} {put : List ℕ → Result (List ℕ)} {ps : List Property}
    (dup_ok : ℕ → Bool) (set : P → Property → Result P) (default v : P)
    → Puts put ps
    → All IsProperty ps
    → 1 ≤ length ps
    → ((buf : List ℕ) → put [] ≡ ok buf → length buf ≤ VarU32.max_var_u32)
    → enc v ≡ (put [] >>= close_props)
    → set_all dup_ok set ps (λ m. false) default ≡ ok v
    → PropBytes enc (decode_props dup_ok set default) v
props_bytes {ps = ps} dup_ok set default v puts good pos short same sets =
    let (bytes, e, enc) = puts.apply good in
    let fits = short bytes (e []) in
    record {
      bytes = bytes;
      some_there = omega (arith, Encoded-length ps bytes enc, pos);
      fits = fits;
      writes = rw (same, e []) (close_props_lem bytes fits);
      reads = decode_props-Reads dup_ok set default v ps bytes enc fits sets;
    }

-- The properties of a packet, or none; an empty list would be read back as none.
abbrev pub OptBytes : {P : Type 0} → (P → Result Blob) → Decoder P → Option P → Type 0
OptBytes enc dec none = Unit
OptBytes enc dec (some props) = PropBytes enc dec props

-- The bytes of the properties, or a zero for none.
pub record PropField {P : Type 0} (enc : P → Result Blob) (dec : Decoder P) (o : Option P)
    : Type 0 where
  pub blob : Blob
  pub pos : 1 ≤ length (as_ref blob)
  pub writes : enc_opt_props enc o ≡ ok blob
  pub reads :
      (stream tail : List ℕ) (n : ℕ)
      → Ahead stream n (as_ref blob ++ tail)
      → dec_props dec stream n ≡ ok (o, n + length (as_ref blob))

pub prop_field :
    {P : Type 0} {enc : P → Result Blob} {dec : Decoder P} (o : Option P)
    → OptBytes enc dec o
    → PropField enc dec o
prop_field none h =
    let small : 0 ≤ VarU32.max_var_u32 = omega arith in
    let zero_byte = as_ref-small_of (bytes_of 0) in
    record {
      blob = small_of (bytes_of 0);
      pos = rw zero_byte (omega arith);
      writes = unfold enc_opt_props in encode-bytes_of 0 small;
      reads = λ stream tail n a.
          unfold dec_props in rw (a.at, zero_byte, decode-bytes_of 0 tail small) refl;
    }
prop_field {enc = enc} {dec} (some props) pb =
    let len = length pb.bytes in
    let front = bytes_of len in
    let whole : as_ref (large (front ++ pb.bytes)) ≡ front ++ pb.bytes = unfold as_ref in refl in
    record {
      blob = large (front ++ pb.bytes);
      pos = rw whole (omega (arith, length-append front pb.bytes, pb.some_there));
      writes = unfold enc_opt_props in pb.writes;
      reads = λ stream tail n a.
          let r : dec (front ++ (pb.bytes ++ tail)) ≡ ok (props, length (front ++ pb.bytes)) =
            rw (append_assoc front pb.bytes tail) at (pb.reads.at tail) in
          let not_zero : (len == 0) ≡ false = ground (arith, pb.some_there) in
          let agrees : (length (front ++ pb.bytes) == length front + len) ≡ true =
            ground (arith, length-append front pb.bytes) in
          unfold dec_props in
          rw
            (
              a.at,
              whole,
              append_assoc front pb.bytes tail,
              decode-bytes_of len (pb.bytes ++ tail) pb.fits,
              not_zero,
              r,
              agrees,
            )
            refl;
    }

-- What a constructor of a header with the length `n` gives.
pub record HeaderField (make : ℕ → Result FixedHeader) (n : ℕ)
    (parts : PacketType × Bool × Qos × Bool) : Type 0 where
  pub fh : FixedHeader
  pub makes : make n ≡ ok fh
  pub parts_of : Header.unwrap fh ≡ ok parts
  pub valid : Header.validate fh ≡ ok tt
  pub len : fh.remaining_len ≡ n
  pub le : fh.remaining_len ≤ VarU32.max_var_u32

pub header_field :
    (make : ℕ → Result FixedHeader) (n : ℕ) (parts : PacketType × Bool × Qos × Bool)
    → n ≤ VarU32.max_var_u32
    → Built (make n) n parts
    → HeaderField make n parts
header_field make n parts h b =
    let (fh, e, u, v, small, len) = b.0 h in
    record { fh = fh; makes = e; parts_of = u; valid = v; len = len; le = omega arith }

-- The header goes in front.
pub close_packet_lem :
    {make : ℕ → Result FixedHeader} {parts : PacketType × Bool × Qos × Bool} (bytes : List ℕ)
    (h : HeaderField make (length bytes) parts)
    → close_packet make bytes ≡ ok (large (header_bytes h.fh ++ bytes))
close_packet_lem bytes h =
    let small : ltb (length bytes) (2 ^ 32) ≡ true = ground (arith, h.le, h.len) in
    unfold close_packet to_u32 insert_fixed_header in
    rw
      (
        small,
        h.makes,
        encode-header_bytes h.fh h.le h.valid,
        as_ref-small_of (header_bytes h.fh),
        insert_front_lem (header_bytes h.fh) bytes,
      )
      refl

-- A packet that is written and read back, behind a header of the packet type `t`.
pub record Framed {A : Type 0} (enc : A → Result Blob) (dec : Decoder A) (t : PacketType) (v : A)
    : Type 0 where
  pub written : Written enc dec v
  pub fh : FixedHeader
  pub retain : Bool
  pub qos : Qos
  pub dup : Bool
  pub head : (rest : List ℕ) → (n : ℕ) × (Header.decode (as_ref written.blob ++ rest) ≡ ok (fh, n))
  pub parts_of : Header.unwrap fh ≡ ok (t, retain, qos, dup)

-- A packet whose `encode` closes a body, and whose `decode` reads that body behind any bytes that
-- read as the header.
pub packet-Framed :
    {A : Type 0} {enc : A → Result Blob} {dec : Decoder A} {v : A} (make : ℕ → Result FixedHeader)
    (t : PacketType) (retain : Bool) (qos : Qos) (dup : Bool) (body : List ℕ)
    → length body ≤ VarU32.max_var_u32
    → Built (make (length body)) (length body) (t, retain, qos, dup)
    → enc v ≡ close_packet make body
    → ((h : HeaderField make (length body) (t, retain, qos, dup)) (front rest : List ℕ)
        → Reads Header.decode front h.fh
        → dec (front ++ (body ++ rest)) ≡ ok (v, length front + length body))
    → Framed enc dec t v
packet-Framed {enc = enc} {dec} {v} make t retain qos dup body short built same reads =
    let h = header_field make (length body) (t, retain, qos, dup) short built in
    let front = header_bytes h.fh in
    let r = decode-Reads h.fh h.le h.valid in
    let written : Written enc dec v = record {
      blob = large (front ++ body);
      writes = same ∙ close_packet_lem body h;
      reads = unfold as_ref in two_parts front body (λ rest. reads h front rest r);
    } in
    record {
      written = written;
      fh = h.fh;
      retain = retain;
      qos = qos;
      dup = dup;
      head = λ rest.
          let e : Header.decode (front ++ (body ++ rest)) ≡ ok (h.fh, length front) =
            r.at (body ++ rest) in
          (length front, unfold as_ref in rw (append_assoc front body rest) e);
      parts_of = h.parts_of;
    }
