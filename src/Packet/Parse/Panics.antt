-- ===== src/Packet/Parse/Panics.antt =====
-- When `parse` panics on a packet that the reader has gathered.
use mymq.Base.{
  ℕ, suc, ◌+◌, ◌/◌, ◌%◌, ◌<◌, Bool, true, false, ◌||◌, List, ◌∷◌, length, leb, ◌==◌, ◌≡◌, refl, ap,
  ◌∙◌, Bool-cases, inl, inr, arith,
}
use mymq.Base.Tables.{passes_below, passes_below_lem}
use mymq.Error.{Result, ok, err, panic, malformed, ◌>>=◌}
use mymq.Error.Ensures.{NoPanic, NoPanic-bind}
use mymq.Types.Blob.{advance, dec_field}
use mymq.Types.U8
use mymq.Types.VarU32
use mymq.V5.Qos
use mymq.V5.Qos.{Qos}
use mymq.V5.PacketType
use mymq.V5.PacketType.{PacketType}
use mymq.V5.Header
use mymq.V5.Header.{FixedHeader, unwrap_ok}
use mymq.V5.Header.Flags.{allowed, validate-allowed}
use mymq.V5.Frame.Received.{Received}
use mymq.V5.Packet.{decode_as}
use mymq.V5.Packet.Safe.{decode_as-NoPanic, decode_as-refused}
use mymq.Packet.Reader.{fin}
use mymq.Packet.Reader.Framing.{Begins, IsRead}
use mymq.Packet.Parse.{parse}

-- The packet type 0, or the QoS 3.
abbrev pub unknown : ℕ → Bool
unknown byte1 = byte1 / 16 == 0 || byte1 / 2 % 4 == 3

ends : Bool → Result (PacketType × Bool × Qos × Bool) → Bool
ends true panic = true
ends false (ok parts) = true
ends _ _ = false

ends-panic : (r : Result (PacketType × Bool × Qos × Bool)) → ends true r ≡ true → r ≡ panic
unfolding ends
ends-panic panic h = refl
ends-panic (err failure) h = cc
ends-panic (ok parts) h = cc

ends-NoPanic : (r : Result (PacketType × Bool × Qos × Bool)) → ends false r ≡ true → NoPanic r
unfolding ends
ends-NoPanic panic h = cc
ends-NoPanic (err failure) h = tt
ends-NoPanic (ok parts) h = tt

at_byte : ℕ → Bool
unfolding ends
at_byte b = ends (unknown b) (Header.unwrap (record { byte1 = b; remaining_len = 0 }))

table : passes_below at_byte 256 ≡ true
unfolding passes_below at_byte ends Header.unwrap unwrap_ok PacketType.try_from Qos.try_from
table = refl

unwrap-ends :
    (fh : FixedHeader) → fh.byte1 < 256 → ends (unknown fh.byte1) (Header.unwrap fh) ≡ true
unfolding Header.unwrap at_byte
unwrap-ends fh small = passes_below_lem at_byte fh.byte1 256 small table

unwrap-unknown :
    (fh : FixedHeader) → fh.byte1 < 256 → unknown fh.byte1 ≡ true → Header.unwrap fh ≡ panic
unwrap-unknown fh small e = ends-panic (Header.unwrap fh) (rw e at (unwrap-ends fh small))

unwrap-NoPanic :
    (fh : FixedHeader) → fh.byte1 < 256 → unknown fh.byte1 ≡ false → NoPanic (Header.unwrap fh)
unwrap-NoPanic fh small e = ends-NoPanic (Header.unwrap fh) (rw e at (unwrap-ends fh small))

-- What the decoders read at the front of a packet that begins with a header.
abbrev head_at : FixedHeader → ℕ → Result (Unit {0}) → Result (FixedHeader × ℕ)
head_at fh n r = r >>= λ u. ok (fh, n)

abbrev moved : FixedHeader × ℕ → Result (FixedHeader × ℕ)
moved (fh, n) = ok (fh, 0 + n)

shift :
    (fh : FixedHeader) (n : ℕ) (r : Result (Unit {0})) → (head_at fh n r >>= moved) ≡ head_at fh n r
shift fh n panic = refl
shift fh n (err failure) = refl
shift fh n (ok u) = let same : 0 + n ≡ n = omega arith in rw same refl

read_at :
    (fh : FixedHeader) (tail : List ℕ) (taken : ℕ)
    → VarU32.decode tail ≡ ok (fh.remaining_len, taken)
    → Header.decode (fh.byte1 ∷ tail) ≡ head_at fh (1 + taken) (Header.validate fh)
unfolding dec_field Header.decode advance U8.decode
read_at fh tail taken e =
    let none_off : leb 0 (suc (length tail)) ≡ true = ground arith in
    let one_off : leb 1 (suc (length tail)) ≡ true = ground arith in rw (none_off, one_off, e) refl

first_field :
    (fh : FixedHeader) (stream : List ℕ) (n : ℕ)
    → Header.decode stream ≡ head_at fh n (Header.validate fh)
    → dec_field Header.decode stream 0 ≡ head_at fh n (Header.validate fh)
unfolding dec_field advance
first_field fh stream n e =
    let none_off : leb 0 (length stream) ≡ true = ground arith in
    rw (none_off, e) (shift fh n (Header.validate fh))

header_read :
    (fh : FixedHeader) (buf : List ℕ) (b : Begins fh buf (length buf))
    → dec_field Header.decode buf 0 ≡ head_at fh (1 + b.taken) (Header.validate fh)
header_read fh buf b =
    ap (λ buf. dec_field Header.decode buf 0) b.starts
    ∙ first_field fh (fh.byte1 ∷ b.tail) (1 + b.taken) (read_at fh b.tail b.taken b.reads)

received :
    (fh : FixedHeader) (buf : List ℕ) (b : Begins fh buf (length buf)) (t : PacketType)
    (retain : Bool) (qos : Qos) (dup : Bool)
    → Header.validate fh ≡ ok tt
    → Header.unwrap fh ≡ ok (t, retain, qos, dup)
    → Received t buf
received fh buf b t retain qos dup valid parts = record {
  fh = fh;
  fh_len = 1 + b.taken;
  retain = retain;
  qos = qos;
  dup = dup;
  head = header_read fh buf b ∙ rw valid refl;
  valid = valid;
  parts = parts;
  le = omega (arith, b.size);
  total = omega (arith, b.size);
}

decode-NoPanic :
    (fh : FixedHeader) (buf : List ℕ) (b : Begins fh buf (length buf)) (t : PacketType)
    (retain : Bool) (qos : Qos) (dup : Bool)
    → fh.byte1 < 256
    → Header.unwrap fh ≡ ok (t, retain, qos, dup)
    → NoPanic (decode_as t buf)
decode-NoPanic fh buf b t retain qos dup small parts =
    let checked = validate-allowed fh small in
    elim (Bool-cases (allowed fh.byte1)) [
      | inl fine ↦
          decode_as-NoPanic t buf
            (received fh buf b t retain qos dup (checked ∙ rw fine refl) parts)
      | inr wrong ↦
          let bad : Header.validate fh ≡ err malformed = checked ∙ rw wrong refl in
          let refused : dec_field Header.decode buf 0 ≡ err malformed =
            header_read fh buf b ∙ rw bad refl in
          rw (decode_as-refused t buf malformed refused) tt
    ]

-- On a packet that `read` hands on, `parse` panics if the first byte has the packet type 0 or the
-- QoS 3, and otherwise returns a packet or an error.
pub parse-panics :
    (buf rem : List ℕ) (fh : FixedHeader) (max_size : ℕ)
    → IsRead (fin buf rem fh max_size)
    → fh.byte1 < 256
    → (unknown fh.byte1 ≡ true → parse (fin buf rem fh max_size) ≡ panic)
      × (unknown fh.byte1 ≡ false → NoPanic (parse (fin buf rem fh max_size)))
unfolding parse IsRead
parse-panics buf rem fh max_size (le, b) small = (
  λ e. rw (unwrap-unknown fh small e) refl,
  λ e.
      NoPanic-bind _ (Header.unwrap fh) _ (unwrap-NoPanic fh small e)
        (λ (t, retain, qos, dup) parts.
          NoPanic-bind _ (decode_as t buf) _ (decode-NoPanic fh buf b t retain qos dup small parts)
            (λ (packet, n) e'. ground arith)),
)
