-- ===== src/Types/Blob.antt =====
-- `Blob` and the byte-slice helpers of types.rs and util.rs. A byte slice is a list of numbers.
use mymq.Base.{
  ℕ, zero, suc, ◌+◌, ◌-◌, true, ◌∷◌, ◌≤◌, ◌≡◌, refl, ◌∙◌, arith, List, [], ◌++◌, length, take, drop,
  replicate, leb, if◌then◌else◌, take-append, drop-append, length-append, length-drop, append_assoc,
}
use native.Mathlib.Nat.{zero-add, suc-add}
use mymq.Error.{Result, ok, err, insufficient, ◌>>=◌}

-- `small` holds a 32-byte array, of which the first `size` bytes count.
pub data Blob : Type 0 where
  small : List ℕ → ℕ → Blob
  large : List ℕ → Blob

unfoldable pub as_ref : Blob → List ℕ
as_ref (small bytes size) = take size bytes
as_ref (large bytes) = bytes

-- `[0_u8; 32]` with `bytes` copied to its front.
unfoldable pub array32 : List ℕ → List ℕ
array32 bytes = bytes ++ replicate (32 - length bytes) 0

unfoldable pub small_of : List ℕ → Blob
unfolding array32
small_of bytes = small (array32 bytes) (length bytes)

pub as_ref-small_of : (bytes : List ℕ) → as_ref (small_of bytes) ≡ bytes
unfolding as_ref small_of
as_ref-small_of bytes = take-append bytes _

unfoldable pub advance : List ℕ → ℕ → Result (List ℕ)
advance stream n = if leb n (length stream) then ok (drop n stream) else err insufficient

-- `Packetize::decode`: the value, and the count of bytes that it took.
abbrev pub Decoder : Type 0 → Type 0
Decoder A = List ℕ → Result (A × ℕ)

-- The macro `dec_field!`: decode at offset `n`, and return the offset behind the field.
unfoldable pub dec_field : {A : Type 0} → Decoder A → List ℕ → ℕ → Result (A × ℕ)
dec_field dec stream n = do rest ← advance stream n; (val, m) ← dec rest; ok (val, n + m)

-- `dec` reads `v` off any stream that begins with `bytes`, and takes just those.
pub record Reads {A : Type 0} (dec : Decoder A) (bytes : List ℕ) (v : A) : Type 0 where
  pub at : (rest : List ℕ) → dec (bytes ++ rest) ≡ ok (v, length bytes)

pub advance-append : (pre rest : List ℕ) → advance (pre ++ rest) (length pre) ≡ ok rest
unfolding advance
advance-append pre rest = ground (arith, length-append pre rest, drop-append pre rest)

pub dec_field-Reads :
    {A : Type 0} {dec : Decoder A} {bytes : List ℕ} {v : A}
    → Reads dec bytes v
    → (pre rest : List ℕ)
    → dec_field dec (pre ++ (bytes ++ rest)) (length pre) ≡ ok (v, length pre + length bytes)
dec_field-Reads {dec = dec} {bytes} r pre rest =
    unfold dec_field in rw (advance-append pre (bytes ++ rest), r.at rest)

pub advance_bounds :
    (stream : List ℕ) (n : ℕ) {rest : List ℕ}
    → advance stream n ≡ ok rest
    → (n ≤ length stream) × (length rest + n ≡ length stream)
unfolding advance
advance_bounds stream n h = ground (arith, length-drop n stream)

pub dec_field-first :
    {A : Type 0} {dec : Decoder A} {bytes : List ℕ} {v : A}
    → Reads dec bytes v
    → (rest : List ℕ) → dec_field dec (bytes ++ rest) 0 ≡ ok (v, length bytes)
dec_field-first {bytes = bytes} r rest =
    let e : 0 + length bytes ≡ length bytes = omega arith in dec_field-Reads r [] rest ∙ rw e refl

-- `tail` is what stands in the stream from the offset `n` on.
pub record Ahead (stream : List ℕ) (n : ℕ) (tail : List ℕ) : Type 0 where
  pub at : advance stream n ≡ ok tail

pub dec_field-Ahead :
    {A : Type 0} {dec : Decoder A} {bytes stream : List ℕ} {v : A} {n : ℕ} (tail : List ℕ)
    → Reads dec bytes v
    → Ahead stream n (bytes ++ tail)
    → dec_field dec stream n ≡ ok (v, n + length bytes)
dec_field-Ahead tail r a = unfold dec_field in rw (a.at, r.at tail) refl

drop-nil : (n : ℕ) → drop {A = ℕ} n [] ≡ []
drop-nil zero = refl
drop-nil (suc n) = refl

drop-add : (n m : ℕ) (xs : List ℕ) → drop (n + m) xs ≡ drop m (drop n xs)
drop-add zero m xs = rw zero-add
drop-add (suc n) m [] = rw (drop-nil (suc n + m), drop-nil m)
drop-add (suc n) m (x ∷ xs) = rw suc-add (drop-add n m xs)

pub past :
    {stream tail : List ℕ} {n : ℕ} (bytes : List ℕ)
    → Ahead stream n (bytes ++ tail)
    → Ahead stream (n + length bytes) tail
past {stream} {tail} {n} bytes a =
    let (le, total) = advance_bounds stream n a.at in
    let fits : leb (n + length bytes) (length stream) ≡ true =
      ground (arith, length-append bytes tail) in
    let there : drop n stream ≡ bytes ++ tail = unfold advance in ground (arith, a.at) in
    record {
      at =
          unfold advance in
          rw (fits, drop-add n (length bytes) stream, there, drop-append bytes tail) refl;
    }

pub start-Ahead : (stream : List ℕ) → Ahead stream 0 stream
start-Ahead stream = record { at = unfold advance in ground arith }

-- Two parts that are read one behind the other.
pub two_parts :
    {A : Type 0} {dec : Decoder A} (front body : List ℕ) {v : A}
    → ((rest : List ℕ) → dec (front ++ (body ++ rest)) ≡ ok (v, length front + length body))
    → Reads dec (front ++ body) v
two_parts front body h = record {
  at = λ rest. rw (append_assoc front body rest, length-append front body) (h rest);
}
