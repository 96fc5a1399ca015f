-- ===== src/V5/Header/Wire.antt =====
-- `FixedHeader` on the wire: writing, reading back, and the length that `len` reports.
use mymq.Base.{ℕ, ◌<◌, ◌≤◌, ◌≡◌, refl, List, [], ◌∷◌, ◌++◌, length, arith}
use mymq.Error.{ok, err, malformed}
use mymq.Types.Blob.{Blob, as_ref, small_of, as_ref-small_of, Reads, dec_field-Reads}
use mymq.Types.U8
use mymq.Types.VarU32
use mymq.Types.VarU32.Laws.{bytes_of, encode-bytes_of, decode-bytes_of}
use mymq.V5.Header.{FixedHeader, validate, encode, decode, len}

-- The bytes of a header.
abbrev pub header_bytes : FixedHeader → List ℕ
header_bytes fh = fh.byte1 ∷ bytes_of fh.remaining_len

pub encode-header_bytes :
    (fh : FixedHeader)
    → fh.remaining_len ≤ VarU32.max_var_u32
    → validate fh ≡ ok tt
    → encode fh ≡ ok (small_of (header_bytes fh))
unfolding encode U8.encode
encode-header_bytes fh h v =
    rw (v, encode-bytes_of fh.remaining_len h, as_ref-small_of (bytes_of fh.remaining_len)) refl

pub decode-Reads :
    (fh : FixedHeader)
    → fh.remaining_len ≤ VarU32.max_var_u32
    → validate fh ≡ ok tt
    → Reads decode (header_bytes fh) fh
unfolding decode
decode-Reads fh h v = record {
  at = λ rest.
      let byte =
        dec_field-Reads (U8.decode-Reads fh.byte1) [] (bytes_of fh.remaining_len ++ rest) in
      let number =
        dec_field-Reads {dec = VarU32.decode}
          (record { at = λ more. decode-bytes_of fh.remaining_len more h }) (fh.byte1 ∷ []) rest in
      rw (byte, number, v) (ground arith);
}

len-header_bytes :
    (fh : FixedHeader)
    → fh.remaining_len < VarU32.max_var_u32
    → len fh ≡ ok (length (header_bytes fh))
unfolding len
len-header_bytes fh h = ground arith

-- A valid header whose length is at most the maximum is written, and reads back, with whatever
-- follows it, taking as many bytes as were written. `len` reports that count below the maximum;
-- at the maximum itself it is a malformed packet, though such a header can be written.
pub decode_header-encode_header :
    (fh : FixedHeader)
    → fh.remaining_len ≤ VarU32.max_var_u32
    → validate fh ≡ ok tt
    → (blob : Blob) × (encode fh ≡ ok blob)
      × Reads decode (as_ref blob) fh
      × (fh.remaining_len < VarU32.max_var_u32 → len fh ≡ ok (length (as_ref blob)))
      × (fh.remaining_len ≡ VarU32.max_var_u32 → len fh ≡ err malformed)
decode_header-encode_header fh h v =
    let b = as_ref-small_of (header_bytes fh) in
    (
      small_of (header_bytes fh),
      encode-header_bytes fh h v,
      rw b (decode-Reads fh h v),
      λ lt. rw b (len-header_bytes fh lt),
      λ eq. unfold len in ground arith,
    )
