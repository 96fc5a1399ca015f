-- ===== src/V5/Payload.antt =====
-- The payload behind the properties, which reaches to the end of the packet, and its entries.
pub mod Laws
pub mod Safe
use mymq.Base.{
  ℕ, zero, suc, ◌+◌, ◌-◌, List, [], ◌∷◌, ◌++◌, length, take, drop, ltb, leb, ◌==◌, if◌then◌else◌,
}
use mymq.Error.{Error, Result, ok, err, panic, ◌>>=◌}
use mymq.Types.Blob.{Blob, as_ref, Decoder, dec_field}

-- `stream[n..m]`, where `m` is at most the length of the stream.
unfoldable pub slice : List ℕ → ℕ → ℕ → Result (List ℕ)
slice stream n m = if ltb m n then panic else ok (take (m - n) (drop n stream))

-- The match on the end of the packet, which refuses an empty payload with `failure`.
unfoldable pub payload_of : Error → List ℕ → ℕ → ℕ → Result (List ℕ × ℕ)
unfolding slice
payload_of failure stream n m =
    if m == n
    then err failure
    else if leb m (length stream)
    then (slice stream n m >>= λ payload. ok (payload, m))
    else err failure

module _ {A : Type 0} (dec : Decoder A) where
  -- `while t < payload.len()`
  unfoldable pub entries_loop : ℕ → List ℕ → ℕ → Result (List A)
  unfolding dec_field
  entries_loop zero payload t = panic
  entries_loop (suc k) payload t =
      if ltb t (length payload)
      then (dec_field dec payload t >>= λ (entry, m).
          entries_loop k payload m >>= λ entries. ok (entry ∷ entries))
      else ok []

  -- Each entry takes one byte at least, so that the loop runs at most as often as there are bytes.
  unfoldable pub entries : List ℕ → Result (List A)
  unfolding entries_loop
  entries payload = entries_loop (length payload + 1) payload 0

-- The loop that writes the entries.
unfoldable pub enc_entries : {A : Type 0} → (A → Result Blob) → List A → Result (List ℕ)
unfolding as_ref
enc_entries enc [] = ok []
enc_entries enc (entry ∷ entries) = do
  blob ← enc entry
  back ← enc_entries enc entries
  ok (as_ref blob ++ back)

-- `for code in payload.into_iter()`, each converted or an error.
unfoldable pub try_all : {A : Type 0} → (ℕ → Result A) → List ℕ → Result (List A)
try_all try_from [] = ok []
try_all try_from (b ∷ bytes) = do
  code ← try_from b
  codes ← try_all try_from bytes
  ok (code ∷ codes)
