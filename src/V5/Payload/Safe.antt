-- ===== src/V5/Payload/Safe.antt =====
-- The payload of a whole packet and its entries are read without a panic.
use mymq.Base.{
  ℕ, zero, suc, ◌+◌, ◌≤◌, ◌<◌, false, List, [], ◌∷◌, length, ltb, ◌≡◌, arith, Bool-cases, inl, inr,
}
use mymq.Error.{Error, Result}
use mymq.Error.Ensures.{NoPanic, Ensures-bind, NoPanic-bind}
use mymq.Types.Blob.{Decoder}
use mymq.Types.Safe.{Within, Safe, dec_field-Ensures}
use mymq.V5.Payload.{slice, payload_of, entries_loop, entries, try_all}
use mymq.V5.Payload.Laws.{Takes, field_grows, entries_loop_fuel}

pub payload_of-NoPanic :
    (failure : Error) (stream : List ℕ) (n m : ℕ)
    → n ≤ length stream
    → m ≡ length stream
    → NoPanic (payload_of failure stream n m)
unfolding payload_of slice
payload_of-NoPanic failure stream n m h total = ground arith

module _ {A : Type 0} (dec : Decoder A) (safe : Safe dec) (takes : Takes dec) where
  loop-NoPanic :
      (k : ℕ) (payload : List ℕ) (t : ℕ)
      → length payload ≤ t + k
      → NoPanic (entries_loop dec (suc k) payload t)
  unfolding entries_loop
  loop-NoPanic zero payload t h =
      let stop : ltb t (length payload) ≡ false = ground arith in rw stop tt
  loop-NoPanic (suc k) payload t h = elim (Bool-cases (ltb t (length payload))) [
    | inr stop ↦ rw stop tt
    | inl go_on ↦ rw go_on (
        Ensures-bind (Within (length payload)) _ _ _ (dec_field-Ensures dec payload t safe)
          (λ (entry, m) e le.
            let less : t < m = field_grows dec payload t entry m takes e in
            NoPanic-bind _ (entries_loop dec (suc k) payload m) _
              (loop-NoPanic k payload m (omega arith)) (λ vs e'. tt)))
  ]

  pub entries-NoPanic : (payload : List ℕ) → NoPanic (entries dec payload)
  unfolding entries
  entries-NoPanic payload =
      let rounds : length payload + 1 ≡ suc (length payload) = omega arith in
      rw rounds (loop-NoPanic (length payload) payload 0 (omega arith))

  -- The loop ends. For a decoder that does not panic and takes some bytes for each entry, the
  -- rounds do not run out, which would be a panic, when there are as many as bytes left and one
  -- more; and from there on their number does not matter to the result.
  pub entries_loop_ends :
      (k j : ℕ) (payload : List ℕ) (t : ℕ)
      → length payload ≤ t + k
      → length payload ≤ t + j
      → NoPanic (entries_loop dec (suc k) payload t)
        × (entries_loop dec (suc k) payload t ≡ entries_loop dec (suc j) payload t)
  entries_loop_ends k j payload t hk hj =
      (loop-NoPanic k payload t hk, entries_loop_fuel dec k j payload t takes hk hj)

pub try_all-NoPanic :
    {A : Type 0} (try_from : ℕ → Result A)
    → ((val : ℕ) → NoPanic (try_from val))
    → (bytes : List ℕ) → NoPanic (try_all try_from bytes)
unfolding try_all
try_all-NoPanic try_from safe [] = tt
try_all-NoPanic try_from safe (b ∷ bytes) = NoPanic-bind _ (try_from b) _ (safe b) (λ code e.
    NoPanic-bind _ (try_all try_from bytes) _ (try_all-NoPanic try_from safe bytes)
      (λ codes e'. tt))
