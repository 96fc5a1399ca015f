-- ===== src/V5/Frame/Sets.antt =====
-- What the match on the properties makes of a list in which none is repeated, field by field.
use mymq.Base.{
  ℕ, Bool, true, false, ◌||◌, List, [], ◌∷◌, ◌++◌, map, Option, none, some, ◌==◌, ◌≡◌, refl, arith,
  append_assoc, append-nil,
}
use mymq.Error.{Result, ok}
use mymq.V5.PropertyType
use mymq.V5.Property.{Property, to_property_type}
use mymq.V5.Frame.{mark, check_dup}
use mymq.V5.Frame.Lists.{set_all}
use mymq.V5.Frame.Puts.{opt}

abbrev number_of : Property → ℕ
number_of p = PropertyType.to_u32 (to_property_type p)

abbrev pub mem : ℕ → List ℕ → Bool
mem m [] = false
mem m (n ∷ ns) = m == n || mem m ns

-- Only the numbers of the list are marked.
pub record Fresh (seen : List ℕ) (dups : ℕ → Bool) : Type 0 where
  pub apply : (m : ℕ) → mem m seen ≡ false → dups m ≡ false

pub nothing_seen : Fresh [] (λ m. false)
nothing_seen = record { apply = λ m h. refl }

seen_more : {seen : List ℕ} {dups : ℕ → Bool} (n : ℕ) → Fresh seen dups → Fresh (n ∷ seen) dups
seen_more n f = record { apply = λ m h. f.apply m (ground arith) }

seen_twice :
    {seen : List ℕ} {dups : ℕ → Bool} (n : ℕ) → Fresh (n ∷ n ∷ seen) dups → Fresh (n ∷ seen) dups
seen_twice n f = record { apply = λ m h. f.apply m (ground arith) }

marked :
    {seen : List ℕ} {dups : ℕ → Bool} (n : ℕ) → Fresh seen dups → Fresh (n ∷ seen) (mark n dups)
marked n f = record { apply = λ m h. unfold mark in ground (arith, f.apply m) }

-- What holds of a value that is there.
abbrev pub Holds : {A : Type 0} → (A → Type 0) → Option A → Type 0
Holds P none = Unit
Holds P (some v) = P v

pub always : {A : Type 0} {P : A → Type 0} → ((v : A) → P v) → (o : Option A) → Holds P o
always h none = tt
always h (some v) = h v

pub Holds-map :
    {A : Type 0} {P Q : A → Type 0} → ((v : A) → P v → Q v) → (o : Option A) → Holds P o → Holds Q o
Holds-map step none h = tt
Holds-map step (some v) h = step v h

check_fresh :
    (dup_ok : ℕ → Bool) (p : Property) (dups : ℕ → Bool)
    → dups (number_of p) ≡ false
    → check_dup dup_ok p dups ≡ ok tt
unfolding check_dup
check_fresh dup_ok p dups h = ground arith

check_allowed :
    (dup_ok : ℕ → Bool) (p : Property) (dups : ℕ → Bool)
    → dup_ok (number_of p) ≡ true
    → check_dup dup_ok p dups ≡ ok tt
unfolding check_dup
check_allowed dup_ok p dups h = ground arith

module _ {P : Type 0} (dup_ok : ℕ → Bool) (set : P → Property → Result P) where
  set_all-cons :
      (p : Property) (qs : List Property) (dups : ℕ → Bool) (props props' : P) (r : Result P)
      → check_dup dup_ok p dups ≡ ok tt
      → set props p ≡ ok props'
      → set_all dup_ok set qs (mark (number_of p) dups) props' ≡ r
      → set_all dup_ok set (p ∷ qs) dups props ≡ r
  set_all-cons p qs dups props props' r check sets later = unfold set_all in rw (check, sets) later

  -- What the properties of a list make of `p`, when those seen before are not marked again.
  pub record Follows (seen : List ℕ) (qs : List Property) (p : P) (r : Result P) : Type 0 where
    pub at : (dups : ℕ → Bool) → Fresh seen dups → set_all dup_ok set qs dups p ≡ r

  -- A property that may stand once, or not at all.
  pub set_opt :
      {A : Type 0} (make : A → Property) (o : Option A) (upd : Option A → P) (number : ℕ)
      {seen : List ℕ} {qs : List Property} {r : Result P}
      → ((v : A) → number_of (make v) ≡ number)
      → mem number seen ≡ false
      → Holds (λ v. set (upd none) (make v) ≡ ok (upd (some v))) o
      → Follows (number ∷ seen) qs (upd o) r
      → Follows seen (opt make o ++ qs) (upd none) r
  set_opt make none upd number same new sets more = record {
    at = λ dups f. more.at dups (seen_more number f);
  }
  set_opt make (some v) upd number {qs = qs} {r} same new sets more = record {
    at = λ dups f.
        let unmarked : dups (number_of (make v)) ≡ false = rw (same v) (f.apply number new) in
        set_all-cons (make v) qs dups (upd none) (upd (some v)) r
          (check_fresh dup_ok (make v) dups unmarked) sets
          (rw (same v) (more.at (mark number dups) (marked number f)));
  }

  -- The same where every value is taken.
  pub set_any :
      {A : Type 0} (make : A → Property) (o : Option A) (upd : Option A → P) (number : ℕ)
      {seen : List ℕ} {qs : List Property} {r : Result P}
      → ((v : A) → number_of (make v) ≡ number)
      → mem number seen ≡ false
      → ((v : A) → set (upd none) (make v) ≡ ok (upd (some v)))
      → Follows (number ∷ seen) qs (upd o) r
      → Follows seen (opt make o ++ qs) (upd none) r
  set_any make o upd number same new sets more =
      set_opt make o upd number same new (always sets o) more

  -- Properties that may be repeated.
  pub set_many :
      {A : Type 0} (make : A → Property) (vs front : List A) (upd : List A → P) (number : ℕ)
      {seen : List ℕ} {qs : List Property} {r : Result P}
      → ((v : A) → number_of (make v) ≡ number)
      → dup_ok number ≡ true
      → ((vs : List A) (v : A) → set (upd vs) (make v) ≡ ok (upd (vs ++ (v ∷ []))))
      → Follows (number ∷ seen) qs (upd (front ++ vs)) r
      → Follows seen (map make vs ++ qs) (upd front) r
  set_many make [] front upd number same allow sets more = record {
    at = λ dups f. rw append-nil at (more.at dups (seen_more number f));
  }
  set_many make (v ∷ vs) front upd number {seen} {qs} {r} same allow sets more =
      let later =
        set_many make vs (front ++ (v ∷ [])) upd number {seen = number ∷ seen} {qs = qs} {r = r}
          same allow sets
          (record {
            at = λ dups f. rw (append_assoc front (v ∷ []) vs) (more.at dups (seen_twice number f));
          }) in
      record {
        at = λ dups f.
            let allowed : dup_ok (number_of (make v)) ≡ true = rw (same v) allow in
            set_all-cons (make v) (map make vs ++ qs) dups (upd front) (upd (front ++ (v ∷ []))) r
              (check_allowed dup_ok (make v) dups allowed) (sets front v)
              (rw (same v) (later.at (mark number dups) (marked number f)));
      }

  last_loop :
      {A : Type 0} (make : A → Property) (vs front : List A) (upd : List A → P) (dups : ℕ → Bool)
      → ((v : A) → dup_ok (number_of (make v)) ≡ true)
      → ((vs : List A) (v : A) → set (upd vs) (make v) ≡ ok (upd (vs ++ (v ∷ []))))
      → set_all dup_ok set (map make vs) dups (upd front) ≡ ok (upd (front ++ vs))
  unfolding set_all
  last_loop make [] front upd dups allow sets = rw append-nil
  last_loop make (v ∷ vs) front upd dups allow sets = rw (
    check_allowed dup_ok (make v) dups (allow v),
    sets front v,
    last_loop make vs (front ++ (v ∷ [])) upd (mark (number_of (make v)) dups) allow sets,
    append_assoc front (v ∷ []) vs,
  )

  -- Those that may be repeated and stand last.
  pub set_last :
      (seen : List ℕ) {A : Type 0} (make : A → Property) (vs : List A) (upd : List A → P)
      → ((v : A) → dup_ok (number_of (make v)) ≡ true)
      → ((vs : List A) (v : A) → set (upd vs) (make v) ≡ ok (upd (vs ++ (v ∷ []))))
      → Follows seen (map make vs) (upd []) (ok (upd vs))
  set_last seen make vs upd allow sets = record {
    at = λ dups f. last_loop make vs [] upd dups allow sets;
  }
