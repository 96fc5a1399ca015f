-- ===== src/V5/Frame/Safe.antt =====
-- Properties and the fields of a packet are read without a panic, and no more is taken than is
-- there.
use mymq.Base.{
  ℕ, zero, suc, ◌+◌, ◌≤◌, ◌<◌, Bool, true, false, List, Option, length, ltb, ◌==◌, ◌≡◌, arith,
  Bool-cases, inl, inr,
}
use mymq.Error.{Result, ◌>>=◌}
use mymq.Error.Ensures.{Ensures, NoPanic, Ensures-bind, NoPanic-bind}
use mymq.Types.Blob.{Decoder, dec_field}
use mymq.Types.VarU32
use mymq.Types.Safe.{Within, Safe, advance-Ensures, dec_field-Ensures, var-Safe}
use mymq.V5.Property
use mymq.V5.Property.{Property, to_property_type}
use mymq.V5.Property.Safe.{property-Safe}
use mymq.V5.PropertyType
use mymq.V5.Frame.{check_dup, mark, props_loop, decode_props, dec_props, dec_field_if, dec_props_if}
use mymq.V5.Frame.Rounds.{grows}

dup-NoPanic :
    (dup_ok : ℕ → Bool) (p : Property) (dups : ℕ → Bool) → NoPanic (check_dup dup_ok p dups)
unfolding check_dup
dup-NoPanic dup_ok p dups = ground arith

module _ {P : Type 0} (dup_ok : ℕ → Bool) (set : P → Property → Result P)
    (set_safe : (props : P) (property : Property) → NoPanic (set props property)) where
  loop-Safe :
      (k : ℕ) (stream : List ℕ) (limit n : ℕ) (dups : ℕ → Bool) (props : P)
      → limit ≤ n + k
      → n ≤ length stream
      → Ensures (Within (length stream)) (props_loop dup_ok set (suc k) stream limit n dups props)
  unfolding props_loop
  loop-Safe zero stream limit n dups props hk hn =
      let stop : ltb n limit ≡ false = ground arith in rw stop hn
  loop-Safe (suc k) stream limit n dups props hk hn = elim (Bool-cases (ltb n limit)) [
    | inr stop ↦ rw stop hn
    | inl go_on ↦ rw go_on (
        Ensures-bind (Within (length stream)) (Within (length stream)) _ _
          (dec_field-Ensures Property.decode stream n property-Safe)
          (λ (property, m) e h.
            let less : n < m = grows stream n m property e in
            NoPanic-bind (Within (length stream)) (check_dup dup_ok property dups) _
              (dup-NoPanic dup_ok property dups)
              (λ u e'.
                NoPanic-bind (Within (length stream)) (set props property) _
                  (set_safe props property)
                  (λ props' e''.
                    loop-Safe k stream limit m
                      (mark (PropertyType.to_u32 (to_property_type property)) dups) props'
                      (omega arith) h))))
  ]

  pub decode_props-Safe : (default : P) → Safe (decode_props dup_ok set default)
  unfolding decode_props
  decode_props-Safe default stream =
      Ensures-bind (Within (length stream)) (Within (length stream)) _ _
        (dec_field-Ensures VarU32.decode stream 0 var-Safe)
        (λ (len, n) e h.
          let rounds : len + n + 1 ≡ suc (len + n) = omega arith in
          rw rounds (loop-Safe (len + n) stream (len + n) n (λ m. false) default (omega arith) h))

pub dec_props-Safe :
    {P : Type 0} (dec : Decoder P) (stream : List ℕ) (n : ℕ)
    → Safe dec
    → Ensures (Within (length stream)) (dec_props dec stream n)
unfolding dec_props
dec_props-Safe dec stream n safe =
    Ensures-bind (λ rest. length rest + n ≡ length stream) (Within (length stream)) _ _
      (advance-Ensures stream n)
      (λ rest e size.
        Ensures-bind (Within (length rest)) (Within (length stream)) _ _ (var-Safe rest)
          (λ (p, m) e' h. elim (Bool-cases (p == 0)) [
            | inl zero_len ↦ rw zero_len (omega arith)
            | inr some_len ↦ rw some_len (
                Ensures-bind (Within (length rest)) (Within (length stream)) _ _ (safe rest)
                  (λ (properties, r) e'' h'. ground arith))
          ]))

pub field_if-Safe :
    {A : Type 0} (there : Bool) (dec : Decoder A) (stream : List ℕ) (n : ℕ)
    → n ≤ length stream
    → Safe dec
    → Ensures (Within (length stream)) (dec_field_if there dec stream n)
unfolding dec_field_if
field_if-Safe true dec stream n h safe =
    Ensures-bind (Within (length stream)) (Within (length stream)) _ _
      (dec_field-Ensures dec stream n safe) (λ (val, m) e h'. h')
field_if-Safe false dec stream n h safe = h

pub props_if-Safe :
    {A : Type 0} (there : Bool) (dec : Decoder A) (stream : List ℕ) (n : ℕ)
    → n ≤ length stream
    → Safe dec
    → Ensures (Within (length stream)) (dec_props_if there dec stream n)
unfolding dec_props_if
props_if-Safe true dec stream n h safe = dec_props-Safe dec stream n safe
props_if-Safe false dec stream n h safe = h

-- A field, the properties, and what may be missing, as steps of a decoder that does not panic.
module _ {A B : Type 0} (dec : Decoder A) (stream : List ℕ) (n : ℕ) (safe : Safe dec) where
  pub field-step :
      (next : A × ℕ → Result B)
      → ((val : A) (m : ℕ) → m ≤ length stream → NoPanic (next (val, m)))
      → NoPanic (dec_field dec stream n >>= next)
  field-step next h =
      Ensures-bind (Within (length stream)) (λ b. Unit {0}) _ next
        (dec_field-Ensures dec stream n safe) (λ (val, m) e le. h val m le)

  pub field-Safe :
      (next : A × ℕ → Result (B × ℕ))
      → ((val : A) (m : ℕ) → m ≤ length stream → Ensures (Within (length stream)) (next (val, m)))
      → Ensures (Within (length stream)) (dec_field dec stream n >>= next)
  field-Safe next h =
      Ensures-bind (Within (length stream)) (Within (length stream)) _ next
        (dec_field-Ensures dec stream n safe) (λ (val, m) e le. h val m le)

  pub props-step :
      (next : Option A × ℕ → Result B)
      → ((val : Option A) (m : ℕ) → m ≤ length stream → NoPanic (next (val, m)))
      → NoPanic (dec_props dec stream n >>= next)
  props-step next h =
      Ensures-bind (Within (length stream)) (λ b. Unit {0}) _ next
        (dec_props-Safe dec stream n safe) (λ (val, m) e le. h val m le)

  pub field_if-Ensures :
      (there : Bool) (Q : B → Type 0) (next : Option A × ℕ → Result B)
      → n ≤ length stream
      → ((val : Option A) (m : ℕ) → m ≤ length stream → Ensures Q (next (val, m)))
      → Ensures Q (dec_field_if there dec stream n >>= next)
  field_if-Ensures there Q next le h =
      Ensures-bind (Within (length stream)) Q _ next (field_if-Safe there dec stream n le safe)
        (λ (val, m) e le'. h val m le')
