-- ===== src/V5/Frame/Rounds.antt =====
-- The loop over properties ends: a property takes some bytes, and more rounds change nothing.
use mymq.Base.{
  ℕ, zero, suc, ◌+◌, ◌≤◌, ◌<◌, Bool, false, List, [], ltb, ◌≡◌, refl, arith, Bool-cases, inl, inr,
}
use mymq.Error.{Result, ok, err, panic, first_step, ◌>>=◌, ◌>>◌}
use mymq.Types.Blob.{advance, dec_field}
use mymq.Types.VarU32
use mymq.Types.VarU32.Prefix.{decode_prefix}
use mymq.V5.PropertyType
use mymq.V5.Property
use mymq.V5.Property.{Property, to_property_type, decode_value}
use mymq.V5.Frame.{mark, check_dup, props_loop}

chain_same :
    {A C : Type 0} {f g : A → Result C} (first : Result (Unit {0})) (second : Result A)
    → ((a : A) → f a ≡ g a)
    → (first >> (second >>= f)) ≡ (first >> (second >>= g))
chain_same (ok u) (ok a) same = same a
chain_same (ok u) (err e) same = refl
chain_same (ok u) panic same = refl
chain_same (err e) second same = refl
chain_same panic second same = refl

-- A property takes one byte at least.
pub decode_pos :
    (stream : List ℕ) (p : Property) (m : ℕ) → Property.decode stream ≡ ok (p, m) → 1 ≤ m
unfolding Property.decode dec_field
decode_pos stream p m e =
    let (pair, e1, d1) = first_step (dec_field VarU32.decode stream 0) e in
    let (rest, e2, d2) = first_step (advance stream 0) d1 in
    let (number, e3, d3) = first_step (VarU32.decode rest) e2 in
    let (later, e4, d4) = first_step (advance stream pair.1) e1 in
    let (kind, e5, d5) = first_step (PropertyType.try_from pair.0) e4 in
    let (val, e6, d6) = first_step (decode_value kind later) e5 in
    let pos : 1 ≤ number.1 = (decode_prefix rest [] number.0 number.1 d3).0 in ground arith

pub grows :
    (stream : List ℕ) (n m : ℕ) (p : Property)
    → dec_field Property.decode stream n ≡ ok (p, m)
    → n < m
unfolding dec_field
grows stream n m p e =
    let (rest, e1, d1) = first_step (advance stream n) e in
    let (pair, e2, d2) = first_step (Property.decode rest) e1 in
    let pos : 1 ≤ pair.1 = decode_pos rest pair.0 pair.1 d2 in ground arith

module _ {P : Type 0} (dup_ok : ℕ → Bool) (set : P → Property → Result P) where
  fuel_step :
      (k j : ℕ) (stream : List ℕ) (limit n : ℕ) (dups : ℕ → Bool) (props : P)
      → (dec_field Property.decode stream n >>= λ (p, m).
          check_dup dup_ok p dups
          >> (set props p >>= λ props'.
              props_loop dup_ok set k stream limit m
                (mark (PropertyType.to_u32 (to_property_type p)) dups)
                props'))
        ≡ (dec_field Property.decode stream n >>= λ (p, m).
            check_dup dup_ok p dups
            >> (set props p >>= λ props'.
                props_loop dup_ok set j stream limit m
                  (mark (PropertyType.to_u32 (to_property_type p)) dups)
                  props'))
      → props_loop dup_ok set (suc k) stream limit n dups props
        ≡ props_loop dup_ok set (suc j) stream limit n dups props
  unfolding props_loop
  fuel_step k j stream limit n dups props e = elim (Bool-cases (ltb n limit)) [
    | inl go_on ↦ rw go_on e
    | inr stop ↦ rw stop
  ]

  -- One round, before any number of others on which two runs agree.
  round_same :
      (k j : ℕ) (stream : List ℕ) (limit n : ℕ) (dups : ℕ → Bool) (props : P)
      (r : Result (Property × ℕ))
      → dec_field Property.decode stream n ≡ r
      → ((m : ℕ) (dups' : ℕ → Bool) (props' : P)
          → n < m
          → props_loop dup_ok set k stream limit m dups' props'
            ≡ props_loop dup_ok set j stream limit m dups' props')
      → (r >>= λ (p, m).
          check_dup dup_ok p dups
          >> (set props p >>= λ props'.
              props_loop dup_ok set k stream limit m
                (mark (PropertyType.to_u32 (to_property_type p)) dups)
                props'))
        ≡ (r >>= λ (p, m).
            check_dup dup_ok p dups
            >> (set props p >>= λ props'.
                props_loop dup_ok set j stream limit m
                  (mark (PropertyType.to_u32 (to_property_type p)) dups)
                  props'))
  round_same k j stream limit n dups props (ok (p, m)) e same =
      chain_same (check_dup dup_ok p dups) (set props p) (λ props'.
        same m (mark (PropertyType.to_u32 (to_property_type p)) dups) props' (grows stream n m p e))
  round_same k j stream limit n dups props (err f) e same = refl
  round_same k j stream limit n dups props panic e same = refl

  -- When there are rounds enough for the bytes up to the limit, their number does not matter.
  pub props_loop_fuel :
      (k j : ℕ) (stream : List ℕ) (limit n : ℕ) (dups : ℕ → Bool) (props : P)
      → limit ≤ n + k
      → limit ≤ n + j
      → props_loop dup_ok set (suc k) stream limit n dups props
        ≡ props_loop dup_ok set (suc j) stream limit n dups props
  props_loop_fuel zero zero stream limit n dups props hk hj = refl
  props_loop_fuel zero (suc j) stream limit n dups props hk hj =
      let stop : ltb n limit ≡ false = ground arith in unfold props_loop in rw stop
  props_loop_fuel (suc k) zero stream limit n dups props hk hj =
      let stop : ltb n limit ≡ false = ground arith in unfold props_loop in rw stop
  props_loop_fuel (suc k) (suc j) stream limit n dups props hk hj =
      fuel_step (suc k) (suc j) stream limit n dups props (
        round_same (suc k) (suc j) stream limit n dups props (dec_field Property.decode stream n)
          refl
          (λ m dups' props' less.
            props_loop_fuel k j stream limit m dups' props' (omega arith) (omega arith)))
