-- ===== src/V5/Payload/Laws.antt =====
-- The entries of a payload are read back as they were written, and the loop over them ends.
use mymq.Base.{
  ℕ, zero, suc, ◌+◌, ◌-◌, ◌≤◌, ◌<◌, true, false, List, [], ◌∷◌, ◌++◌, map, ap, length, drop, ltb,
  leb, ◌==◌, ◌≡◌, refl, arith, length-append, take-append, Bool-cases, inl, inr, ltb→lt, All,
}
use mymq.Error.{Error, Result, ok, err, panic, first_step, ◌>>=◌}
use mymq.Types.Blob.{
  Blob, as_ref, Decoder, Reads, advance, advance_bounds, Ahead, dec_field, dec_field-Ahead, past,
  start-Ahead,
}
use mymq.Types.U8
use mymq.Types.U16
use mymq.Types.Text.{decode_string, check_text}
use mymq.Types.Topic.{decode_filter}
use mymq.Types.Written.{Written}
use mymq.V5.Payload.{slice, payload_of, entries_loop, entries, try_all, enc_entries}

-- A payload that is there is taken whole.
pub payload_of-Ahead :
    (failure : Error) (stream payload tail : List ℕ) (n : ℕ)
    → 1 ≤ length payload
    → Ahead stream n (payload ++ tail)
    → payload_of failure stream n (n + length payload) ≡ ok (payload, n + length payload)
payload_of-Ahead failure stream payload tail n pos a =
    let (le, total) = advance_bounds stream n a.at in
    let there : drop n stream ≡ payload ++ tail = unfold advance in ground (arith, a.at) in
    let some_there : (n + length payload == n) ≡ false = ground arith in
    let fits : leb (n + length payload) (length stream) ≡ true =
      ground (arith, length-append payload tail) in
    let ordered : ltb (n + length payload) n ≡ false = ground arith in
    let size : n + length payload - n ≡ length payload = omega arith in
    unfold payload_of slice in
    rw (some_there, fits, ordered, size, there, take-append payload tail) refl

-- A packet whose properties reach behind its end makes the slice panic.
pub payload_of_panic :
    (failure : Error) (stream : List ℕ) (n m : ℕ)
    → m < n
    → m ≤ length stream
    → payload_of failure stream n m ≡ panic
unfolding payload_of slice
payload_of_panic failure stream n m less h = ground arith

-- Every value that is read takes some bytes.
abbrev pub Takes : {A : Type 0} → Decoder A → Type 0
Takes {A} dec = (stream : List ℕ) (v : A) (m : ℕ) → dec stream ≡ ok (v, m) → 1 ≤ m

pub field_grows :
    {A : Type 0} (dec : Decoder A) (stream : List ℕ) (n : ℕ) (v : A) (m : ℕ)
    → ((stream : List ℕ) (v : A) (m : ℕ) → dec stream ≡ ok (v, m) → 1 ≤ m)
    → dec_field dec stream n ≡ ok (v, m)
    → n < m
unfolding dec_field
field_grows dec stream n v m pos e =
    let (rest, e1, d1) = first_step (advance stream n) e in
    let (pair, e2, d2) = first_step (dec rest) e1 in
    let some_bytes : 1 ≤ pair.1 = pos rest pair.0 pair.1 d2 in ground arith

-- Entries one behind the other, each of which takes some bytes.
abbrev pub Entries : {A : Type 0} → Decoder A → List A → List ℕ → Type 0
Entries dec [] bytes = bytes ≡ []
Entries dec (v ∷ vs) bytes =
    (front : List ℕ) × (more : List ℕ) × (bytes ≡ front ++ more)
    × Reads dec front v
    × (1 ≤ length front)
    × Entries dec vs more

module _ {A : Type 0} (dec : Decoder A) where
  Entries-length : (vs : List A) (bytes : List ℕ) → Entries dec vs bytes → length vs ≤ length bytes
  Entries-length [] bytes e = omega arith
  Entries-length (v ∷ vs) bytes (front, more, e, r, pos, later) =
      rw e (omega (arith, length-append front more, Entries-length vs more later))

  loop-Entries :
      (vs : List A) (bytes payload : List ℕ) (k t : ℕ)
      → Entries dec vs bytes
      → Ahead payload t bytes
      → t + length bytes ≡ length payload
      → length vs < k
      → entries_loop dec k payload t ≡ ok vs
  unfolding entries_loop
  loop-Entries [] bytes payload zero t e a end h = absurd (omega arith)
  loop-Entries [] bytes payload (suc k) t e a end h =
      let none_left : length bytes ≡ 0 = rw e in
      let stop : ltb t (length payload) ≡ false = ground arith in rw stop refl
  loop-Entries (v ∷ vs) bytes payload zero t e a end h = absurd (omega arith)
  loop-Entries (v ∷ vs) bytes payload (suc k) t (front, more, e, r, pos, later) a end h =
      let size : length bytes ≡ length front + length more = rw e (length-append front more) in
      let go_on : ltb t (length payload) ≡ true = ground arith in
      let here : Ahead payload t (front ++ more) = rw e at a in
      let rest : entries_loop dec k payload (t + length front) ≡ ok vs =
        loop-Entries vs more payload k (t + length front) later (past front here) (omega arith)
          (omega arith) in
      rw (go_on, dec_field-Ahead more r here, rest)

  pub entries-Entries :
      (vs : List A) (bytes : List ℕ) → Entries dec vs bytes → entries dec bytes ≡ ok vs
  entries-Entries vs bytes e =
      unfold entries in
      loop-Entries vs bytes bytes (length bytes + 1) 0 e (start-Ahead bytes) (omega arith)
        (omega (arith, Entries-length vs bytes e))

  -- One round, before two runs that agree.
  round_same :
      (k j : ℕ) (payload : List ℕ) (r : Result (A × ℕ))
      → ((v : A) (m : ℕ)
          → r ≡ ok (v, m)
          → entries_loop dec k payload m ≡ entries_loop dec j payload m)
      → (r >>= λ (entry, m). entries_loop dec k payload m >>= λ vs. ok (entry ∷ vs))
        ≡ (r >>= λ (entry, m). entries_loop dec j payload m >>= λ vs. ok (entry ∷ vs))
  round_same k j payload (ok (v, m)) same = rw (same v m refl)
  round_same k j payload (err e) same = refl
  round_same k j payload panic same = refl

  fuel_step :
      (k j : ℕ) (payload : List ℕ) (t : ℕ)
      → (t < length payload
          → (dec_field dec payload t >>= λ (entry, m).
              entries_loop dec k payload m >>= λ vs. ok (entry ∷ vs))
            ≡ (dec_field dec payload t >>= λ (entry, m).
                entries_loop dec j payload m >>= λ vs. ok (entry ∷ vs)))
      → entries_loop dec (suc k) payload t ≡ entries_loop dec (suc j) payload t
  unfolding entries_loop
  fuel_step k j payload t same = elim (Bool-cases (ltb t (length payload))) [
    | inl go_on ↦ rw go_on (same (ltb→lt t (length payload) go_on))
    | inr stop ↦ rw stop
  ]

  -- Rounds beyond those for the bytes left change nothing.
  pub entries_loop_fuel :
      (k j : ℕ) (payload : List ℕ) (t : ℕ)
      → Takes dec
      → length payload ≤ t + k
      → length payload ≤ t + j
      → entries_loop dec (suc k) payload t ≡ entries_loop dec (suc j) payload t
  entries_loop_fuel zero zero payload t pos hk hj = refl
  entries_loop_fuel zero (suc j) payload t pos hk hj =
      fuel_step zero (suc j) payload t (λ less. absurd (omega arith))
  entries_loop_fuel (suc k) zero payload t pos hk hj =
      fuel_step (suc k) zero payload t (λ less. absurd (omega arith))
  entries_loop_fuel (suc k) (suc j) payload t pos hk hj =
      fuel_step (suc k) (suc j) payload t (λ less.
        round_same (suc k) (suc j) payload (dec_field dec payload t) (λ v m e.
          let less : t < m = field_grows dec payload t v m pos e in
          entries_loop_fuel k j payload m pos (omega arith) (omega arith)))

-- Values each of which can be written are written, one behind the other.
pub enc_entries-Entries :
    {A : Type 0} (P : A → Type 0) (enc : A → Result Blob) (dec : Decoder A)
    → ((v : A) → P v → Written enc dec v)
    → Takes dec
    → (vs : List A) → All P vs
    → (bytes : List ℕ) × (enc_entries enc vs ≡ ok bytes) × Entries dec vs bytes
unfolding enc_entries
enc_entries-Entries P enc dec written takes [] h = ([], refl, refl)
enc_entries-Entries P enc dec written takes (v ∷ vs) h =
    let w = written v h.0 in
    let front = as_ref w.blob in
    let (more, e, later) = enc_entries-Entries P enc dec written takes vs h.1 in
    let pos = takes (front ++ []) v (length front) (w.reads.at []) in
    (front ++ more, rw (w.writes, e) refl, (front, more, refl, w.reads, pos, later))

pub Entries-pos :
    {A : Type 0} (dec : Decoder A) (vs : List A) (bytes : List ℕ)
    → 1 ≤ length vs
    → Entries dec vs bytes
    → 1 ≤ length bytes
Entries-pos dec [] bytes h e = absurd (omega arith)
Entries-pos dec (v ∷ vs) bytes h (front, more, e, r, pos, later) =
    rw e (omega (arith, length-append front more))

pub decode_string-Takes : Takes decode_string
unfolding decode_string
decode_string-Takes stream v m e =
    let (pair, e1, d1) = first_step (U16.decode stream) e in unfold check_text in ground arith

pub decode_filter-Takes : Takes decode_filter
unfolding decode_filter
decode_filter-Takes stream v m e =
    let (pair, e1, d1) = first_step (decode_string stream) e in
    let pos = decode_string-Takes stream pair.0 pair.1 d1 in ground arith

pub decode_u8-Takes : Takes U8.decode
unfolding U8.decode
decode_u8-Takes stream v m e = ground arith

pub try_all-map :
    {A : Type 0} (try_from : ℕ → Result A) (to_u8 : A → ℕ)
    → ((v : A) → try_from (to_u8 v) ≡ ok v)
    → (vs : List A) → try_all try_from (map to_u8 vs) ≡ ok vs
unfolding try_all
try_all-map try_from to_u8 same [] = refl
try_all-map try_from to_u8 same (v ∷ vs) = rw (same v, try_all-map try_from to_u8 same vs)

pub length-map : {A : Type 0} (f : A → ℕ) (vs : List A) → length (map f vs) ≡ length vs
length-map f [] = refl
length-map f (v ∷ vs) = ap suc (length-map f vs)
