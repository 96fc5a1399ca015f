-- ===== src/V5/Frame/Lists.antt =====
-- A list of properties is read back as it was written.
use mymq.Base.{
  ℕ, zero, suc, ◌+◌, ◌≤◌, ◌<◌, Bool, true, false, List, [], ◌∷◌, ◌++◌, length, take, drop, ltb, ◌≡◌,
  arith, append_assoc, length-append, length-take, take-append, drop-append,
}
use mymq.Error.{Result, ok, err, panic, ◌>>=◌, ◌>>◌}
use mymq.Types.Blob.{Reads, dec_field-Reads, dec_field-first}
use mymq.Types.VarU32
use mymq.Types.VarU32.Laws.{bytes_of, decode-bytes_of}
use mymq.V5.PropertyType
use mymq.V5.Property
use mymq.V5.Property.{Property, to_property_type, decode_value}
use mymq.V5.Frame.{insert_front, mark, check_dup, props_loop, decode_props}

drop_front : (n : ℕ) (xs ys : List ℕ) → length xs ≡ n → drop n (xs ++ ys) ≡ ys
drop_front n xs ys e = rw (← e) (drop-append xs ys)

pub insert_front_lem : (bytes buf : List ℕ) → insert_front bytes buf ≡ bytes ++ buf
unfolding insert_front
insert_front_lem bytes buf =
    let size : length (take (length bytes) (buf ++ bytes)) ≡ length bytes =
      omega (arith, length-take (length bytes) (buf ++ bytes), length-append buf bytes) in
    rw (
      take-append buf bytes,
      drop_front (length bytes) (take (length bytes) (buf ++ bytes)) buf size,
    )

-- The bytes of properties, one behind the other, each of which `Property.decode` reads.
abbrev pub Encoded : List Property → List ℕ → Type 0
Encoded [] bytes = bytes ≡ []
Encoded (p ∷ ps) bytes =
    (front : List ℕ) × (more : List ℕ) × (bytes ≡ front ++ more)
    × Reads Property.decode front p
    × (1 ≤ length front)
    × Encoded ps more

pub Encoded-length :
    (ps : List Property) (bytes : List ℕ) → Encoded ps bytes → length ps ≤ length bytes
Encoded-length [] bytes e = omega arith
Encoded-length (p ∷ ps) bytes (front, more, e, r, pos, later) =
    rw e (omega (arith, length-append front more, Encoded-length ps more later))

pub Encoded-append :
    (ps qs : List Property) (front back : List ℕ)
    → Encoded ps front
    → Encoded qs back
    → Encoded (ps ++ qs) (front ++ back)
Encoded-append [] qs front back e e' = rw e e'
Encoded-append (p ∷ ps) qs front back (first, more, e, r, pos, later) e' = (
  first,
  more ++ back,
  rw e (append_assoc first more back),
  r,
  pos,
  Encoded-append ps qs more back later e',
)

-- Two chains that begin alike.
chain :
    {A B C : Type 0} {f : A → Result B} {g : A → Result C} {v : B} {w : Result C}
    (first : Result (Unit {0})) (second : Result A)
    → (first >> (second >>= f)) ≡ ok v
    → ((a : A) → f a ≡ ok v → g a ≡ w)
    → (first >> (second >>= g)) ≡ w
chain (ok u) (ok a) e step = step a e
chain (ok u) (err f) e step = cc
chain (ok u) panic e step = cc
chain (err f) second e step = cc
chain panic second e step = cc

module _ {P : Type 0} (dup_ok : ℕ → Bool) (set : P → Property → Result P) where
  -- What a list of properties makes of the default.
  unfoldable pub set_all : List Property → (ℕ → Bool) → P → Result P
  unfolding check_dup mark
  set_all [] dups props = ok props
  set_all (p ∷ ps) dups props =
      check_dup dup_ok p dups
      >> (set props p >>= λ props'.
          set_all ps (mark (PropertyType.to_u32 (to_property_type p)) dups) props')

  pub props_loop-Encoded :
      (ps : List Property) (bytes pre rest : List ℕ) (k : ℕ) (dups : ℕ → Bool) (props v : P)
      → Encoded ps bytes
      → length ps < k
      → set_all ps dups props ≡ ok v
      → props_loop dup_ok set k
          (pre ++ (bytes ++ rest))
          (length pre + length bytes)
          (length pre)
          dups
          props
        ≡ ok (v, length pre + length bytes)
  unfolding props_loop set_all
  props_loop-Encoded [] bytes pre rest zero dups props v enc h e = absurd (omega arith)
  props_loop-Encoded [] bytes pre rest (suc k) dups props v enc h e =
      let stop : ltb (length pre) (length pre + 0) ≡ false = ground arith in
      let same : length pre + 0 ≡ length pre = omega arith in rw enc (rw (stop, same) cc)
  props_loop-Encoded (p ∷ ps) bytes pre rest zero dups props v enc h e = absurd (omega arith)
  props_loop-Encoded (p ∷ ps) bytes pre rest (suc k) dups props v (front, more, e', r, pos, later) h
        e =
      let number = PropertyType.to_u32 (to_property_type p) in
      let total : length pre + length bytes ≡ length (pre ++ front) + length more =
        rw e' (omega (arith, length-append pre front, length-append front more)) in
      let go_on : ltb (length pre) (length pre + length bytes) ≡ true =
        ground (arith, length-append pre front) in
      let whole : pre ++ (bytes ++ rest) ≡ pre ++ (front ++ (more ++ rest)) =
        rw (e', append_assoc front more rest) in
      rw (go_on, whole, dec_field-Reads r pre (more ++ rest))
        (chain (check_dup dup_ok p dups) (set props p) e (λ props' e''.
          rw (total, ← length-append pre front, ← append_assoc pre front (more ++ rest))
            (props_loop-Encoded ps more (pre ++ front) rest k (mark number dups) props' v later
              (omega arith) e'')))

  -- The whole list, with its length in front.
  pub decode_props-Reads :
      (default v : P) (ps : List Property) (bytes : List ℕ)
      → Encoded ps bytes
      → length bytes ≤ VarU32.max_var_u32
      → set_all ps (λ m. false) default ≡ ok v
      → Reads (decode_props dup_ok set default) (bytes_of (length bytes) ++ bytes) v
  unfolding decode_props
  decode_props-Reads default v ps bytes enc h e = record {
    at = λ rest.
        let front = bytes_of (length bytes) in
        let number : Reads VarU32.decode front (length bytes) = record {
          at = λ more. decode-bytes_of (length bytes) more h;
        } in
        let swap : length bytes + length front ≡ length front + length bytes = omega arith in
        let fuel : length ps < length front + length bytes + 1 =
          omega (arith, Encoded-length ps bytes enc) in
        rw
          (
            append_assoc front bytes rest,
            dec_field-first number (bytes ++ rest),
            length-append front bytes,
          )
          (rw swap (
            props_loop-Encoded ps bytes front rest (length front + length bytes + 1) (λ m. false)
              default v enc fuel e));
  }
