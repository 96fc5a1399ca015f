-- ===== src/V5/Frame/Puts.antt =====
-- What the macros that write properties append, and that it is read back property by property.
use mymq.Base.{
  ℕ, ◌≤◌, List, [], ◌∷◌, ◌++◌, map, Option, none, some, length, ◌≡◌, refl, append_assoc, append-nil,
  All, All-front, All-back,
}
use mymq.Error.{Result, ok, ◌>>=◌, first_step}
use mymq.Types.Blob.{Blob, large, as_ref, Reads}
use mymq.V5.PropertyType.{PropertyType}
use mymq.V5.Property
use mymq.V5.Property.{Property, encode_value, enc_prop}
use mymq.V5.Property.RoundTrip.{IsProperty, encode_property-Written}
use mymq.V5.Frame.{put_prop, put_opt, put_all}
use mymq.V5.Frame.Lists.{Encoded, Encoded-append}
use mymq.V5.Frame.Rounds.{decode_pos}

-- The bytes of one property, which are some.
pub value_bytes :
    (p : Property)
    → IsProperty p
    → (bytes : List ℕ) × (encode_value p ≡ ok bytes)
      × Reads Property.decode bytes p
      × (1 ≤ length bytes)
value_bytes p h =
    let w = encode_property-Written p h in
    let e : (encode_value p >>= λ bytes. ok (large bytes)) ≡ ok w.blob =
      unfold Property.encode in w.writes in
    let (bytes, e1, d1) = first_step (encode_value p) e in
    let b : w.blob ≡ large bytes = cc in
    let same : as_ref w.blob ≡ bytes = rw b (unfold as_ref in refl) in
    let reads : Reads Property.decode bytes p = rw same at w.reads in
    let pos : 1 ≤ length bytes = decode_pos (bytes ++ []) p (length bytes) (reads.at []) in
    (bytes, d1, reads, pos)

-- A property that is there or not.
abbrev pub opt : {A : Type 0} → (A → Property) → Option A → List Property
opt make none = []
opt make (some val) = make val ∷ []

-- When each of the properties can be written, `put` appends their bytes to whatever is there.
pub record Puts (put : List ℕ → Result (List ℕ)) (ps : List Property) : Type 0 where
  pub apply :
      All IsProperty ps
      → (bytes : List ℕ) × ((buf : List ℕ) → put buf ≡ ok (buf ++ bytes)) × Encoded ps bytes

pub put_prop-Puts :
    {A : Type 0} (make : A → Property) (t : PropertyType) (enc : A → Result Blob)
    → ((v : A) → encode_value (make v) ≡ enc_prop t enc v)
    → (v : A) → Puts (put_prop t enc v) (make v ∷ [])
put_prop-Puts make t enc same v = record {
  apply = λ h.
      let (bytes, e, r, pos) = value_bytes (make v) h.0 in
      (
        bytes,
        λ buf. unfold put_prop in rw (← same v, e) refl,
        (bytes, [], rw append-nil, r, pos, refl),
      );
}

pub put_nothing : Puts (λ buf. ok buf) []
put_nothing = record { apply = λ h. ([], λ buf. rw append-nil, refl) }

-- One writer behind the other.
pub both :
    {f g : List ℕ → Result (List ℕ)} {ps qs : List Property}
    → Puts f ps
    → Puts g qs
    → Puts (λ buf. f buf >>= g) (ps ++ qs)
both {f} {g} {ps} {qs} p q = record {
  apply = λ h.
      let (front, e, enc) = p.apply (All-front IsProperty ps qs h) in
      let (back, e', enc') = q.apply (All-back IsProperty ps qs h) in
      (
        front ++ back,
        λ buf. rw (e buf, e' (buf ++ front), append_assoc buf front back) refl,
        Encoded-append ps qs front back enc enc',
      );
}

pub put_opt-Puts :
    {A : Type 0} (make : A → Property) (t : PropertyType) (enc : A → Result Blob)
    → ((v : A) → encode_value (make v) ≡ enc_prop t enc v)
    → (o : Option A) → Puts (put_opt t enc o) (opt make o)
unfolding put_opt
put_opt-Puts make t enc same none = put_nothing
put_opt-Puts make t enc same (some v) = put_prop-Puts make t enc same v

pub put_all-Puts :
    {A : Type 0} (make : A → Property) (t : PropertyType) (enc : A → Result Blob)
    → ((v : A) → encode_value (make v) ≡ enc_prop t enc v)
    → (vs : List A) → Puts (put_all t enc vs) (map make vs)
unfolding put_all
put_all-Puts make t enc same [] = put_nothing
put_all-Puts make t enc same (v ∷ vs) =
    both (put_prop-Puts make t enc same v) (put_all-Puts make t enc same vs)
