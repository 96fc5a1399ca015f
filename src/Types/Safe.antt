-- ===== src/Types/Safe.antt =====
-- The decoders of the scalar types and of text do not panic, and take no more than is there.
use mymq.Base.{
  ℕ, zero, suc, ◌+◌, ◌≤◌, List, [], ◌∷◌, length, ltb, ◌≡◌, arith, min, Bool-cases, inl, inr,
  bit_and, ◌*◌, ◌^◌, ◌%◌,
}
use mymq.Error.Ensures.{Ensures, NoPanic, Ensures-bind, Ensures-map, Ensures-equal}
use mymq.Types.Blob.{Decoder, advance, advance_bounds, dec_field}
use mymq.Types.U8
use mymq.Types.U16
use mymq.Types.U32
use mymq.Types.VarU32
use mymq.Types.Text.{decode_string, decode_bytes, decode_user_property, check_text}
use mymq.Types.Topic.{validate_name, validate_filter, decode_name, decode_filter}

-- The count of bytes taken is at most `b`.
abbrev pub Within : {A : Type 0} → ℕ → A × ℕ → Type 0
Within b taken = taken.1 ≤ b

-- A decoder that does not panic, and takes no more than is there.
abbrev pub Safe : {A : Type 0} → Decoder A → Type 0
Safe dec = (stream : List ℕ) → Ensures (Within (length stream)) (dec stream)

pub advance-Ensures :
    (stream : List ℕ) (n : ℕ) → Ensures (λ rest. length rest + n ≡ length stream) (advance stream n)
advance-Ensures stream n =
    Ensures-equal (λ rest. length rest + n ≡ length stream) (advance stream n)
      (λ rest e. (advance_bounds stream n e).1) (unfold advance in ground arith)

pub dec_field-Ensures :
    {A : Type 0} (dec : Decoder A) (stream : List ℕ) (n : ℕ)
    → Safe dec
    → Ensures (Within (length stream)) (dec_field dec stream n)
unfolding dec_field
dec_field-Ensures dec stream n safe =
    Ensures-bind (λ rest. length rest + n ≡ length stream) _ (advance stream n) _
      (advance-Ensures stream n)
      (λ rest e h.
        Ensures-bind (Within (length rest)) _ (dec rest) _ (safe rest) (λ taken e' h'. omega arith))

pub u8-Safe : Safe U8.decode
unfolding U8.decode
u8-Safe [] = tt
u8-Safe (b ∷ stream) = omega arith

pub u16-Safe : Safe U16.decode
unfolding U16.decode
u16-Safe [] = tt
u16-Safe (a ∷ []) = tt
u16-Safe (a ∷ b ∷ stream) = omega arith

pub u32-Safe : Safe U32.decode
unfolding U32.decode
u32-Safe [] = tt
u32-Safe (a ∷ []) = tt
u32-Safe (a ∷ b ∷ []) = tt
u32-Safe (a ∷ b ∷ c ∷ []) = tt
u32-Safe (a ∷ b ∷ c ∷ d ∷ stream) = omega arith

loop-Safe :
    (k : ℕ) (stream : List ℕ) (i out : ℕ)
    → Ensures (Within (i + length stream)) (VarU32.decode_loop k stream i out)
unfolding VarU32.decode_loop
loop-Safe zero stream i out = tt
loop-Safe (suc k) [] i out = tt
loop-Safe (suc k) (b ∷ stream) i out =
    let out' = (out + bit_and b 0x7f * 2 ^ (7 * i) % 2 ^ 32) % 2 ^ 32 in
    elim (Bool-cases (ltb b 0x80)) [
      | inl last ↦ rw last (omega arith)
      | inr goes_on ↦ rw goes_on (
          Ensures-map (Within (i + 1 + length stream)) (Within (i + suc (length stream))) _
            (loop-Safe k stream (i + 1) out') (λ taken e h. omega arith))
    ]

pub var-Safe : Safe VarU32.decode
unfolding VarU32.decode
var-Safe stream =
    Ensures-map (Within (0 + length stream)) (Within (length stream)) _
      (loop-Safe (min (length stream) 4) stream 0 0) (λ taken e h. omega arith)

pub string-Safe : Safe decode_string
unfolding decode_string
string-Safe stream =
    Ensures-bind _ _ (U16.decode stream) _ (u16-Safe stream)
      (λ (len, m) e h. unfold check_text in ground arith)

pub bytes-Safe : Safe decode_bytes
unfolding decode_bytes
bytes-Safe stream =
    Ensures-bind _ _ (U16.decode stream) _ (u16-Safe stream) (λ (len, m) e h. ground arith)

pub user-Safe : Safe decode_user_property
unfolding decode_user_property
user-Safe stream = Ensures-bind _ _ (decode_string stream) _ (string-Safe stream) (λ (key, m) e h.
    Ensures-bind _ _ (advance stream m) _ (advance-Ensures stream m) (λ rest e' size.
      Ensures-bind _ _ (decode_string rest) _ (string-Safe rest) (λ (val, n) e'' h'. omega arith)))

name_check : (s : List ℕ) → NoPanic (validate_name s)
unfolding validate_name
name_check s = ground arith

filter_check : (s : List ℕ) → NoPanic (validate_filter s)
unfolding validate_filter
filter_check s = ground arith

pub name-Safe : Safe decode_name
unfolding decode_name
name-Safe stream =
    Ensures-bind _ _ (decode_string stream) _ (string-Safe stream)
      (λ (val, n) e h. Ensures-bind _ _ (validate_name val) _ (name_check val) (λ u e' h'. h))

pub filter-Safe : Safe decode_filter
unfolding decode_filter
filter-Safe stream =
    Ensures-bind _ _ (decode_string stream) _ (string-Safe stream)
      (λ (val, n) e h. Ensures-bind _ _ (validate_filter val) _ (filter_check val) (λ u e' h'. h))
