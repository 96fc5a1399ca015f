-- ===== src/Broker/TTrie/Match/Filters.antt =====
-- When a topic filter matches a topic name, level by level; membership in lists of values.
use mymq.Base.{
  List, [], ◌∷◌, ◌++◌, Bool, true, false, ◌≡◌, ◌≢◌, ◌⊎◌, inl, inr, refl, if◌then◌else◌, Bool-cases,
  All, sym,
}
use mathlib.Core.Path.{subst}
use mymq.Types.Utf8.{Str}
use mymq.Broker.TTrie.Vec.{filter}
use mymq.Broker.TTrie.Match.{multi, single}

-- `#` stands for the levels that are left, of which there is one at least; `+` for one level.
abbrev pub Matches : List Str → List Str → Type 0
Matches [] [] = Unit
Matches [] (f ∷ fs) = ⊥
Matches (level ∷ levels) [] = ⊥
Matches (level ∷ levels) (f ∷ fs) =
    ((f ≡ multi) × (fs ≡ [])) ⊎ ((f ≢ multi) × ((f ≡ single) ⊎ (f ≡ level)) × Matches levels fs)

-- A level of a topic name is no wildcard.
abbrev pub Plain : Str → Type 0
Plain level = (level ≢ multi) × (level ≢ single)

pub data In {ℓ} {A : Type ℓ} (a : A) : List A → Type ℓ where
  here : {x : A} {xs : List A} → a ≡ x → In a (x ∷ xs)
  there : {x : A} {xs : List A} → In a xs → In a (x ∷ xs)

module _ {ℓ} {A : Type ℓ} where
  pub In-append_left : (a : A) (xs ys : List A) → In a xs → In a (xs ++ ys)
  In-append_left a [] ys h = elim h [ ]
  In-append_left a (x ∷ xs) ys (here e) = here e
  In-append_left a (x ∷ xs) ys (there h) = there (In-append_left a xs ys h)

  pub In-append_right : (a : A) (xs ys : List A) → In a ys → In a (xs ++ ys)
  In-append_right a [] ys h = h
  In-append_right a (x ∷ xs) ys h = there (In-append_right a xs ys h)

  pub In-append : (a : A) (xs ys : List A) → In a (xs ++ ys) → In a xs ⊎ In a ys
  In-append a [] ys h = inr h
  In-append a (x ∷ xs) ys (here e) = inl (here e)
  In-append a (x ∷ xs) ys (there h) = elim (In-append a xs ys h) [
    | inl m ↦ inl (there m)
    | inr m ↦ inr m
  ]

  In-cons : (a x : A) (xs : List A) → In a (x ∷ xs) → (a ≡ x) ⊎ In a xs
  In-cons a x xs (here e) = inl e
  In-cons a x xs (there h) = inr h

  pub In-filter : (p : A → Bool) (a : A) (xs : List A) → In a (filter p xs) → In a xs × (p a ≡ true)
  In-filter p a [] h = unfold filter in elim h [ ]
  In-filter p a (x ∷ xs) h = go (p x) refl (In-filter p a xs) (unfold filter in h)
    where
      go :
          (b : Bool)
          → p x ≡ b
          → (In a (filter p xs) → In a xs × (p a ≡ true))
          → In a (if b then x ∷ filter p xs else filter p xs)
          → In a (x ∷ xs) × (p a ≡ true)
      go true e rec m = elim (In-cons a x (filter p xs) m) [
        | inl q ↦ (here q, rw q e)
        | inr r ↦ let (i, t) = rec r in (there i, t)
      ]
      go false e rec m = let (i, t) = rec m in (there i, t)

  pub filter-In : (p : A → Bool) (a : A) (xs : List A) → In a xs → p a ≡ true → In a (filter p xs)
  unfolding filter
  filter-In p a [] h e = elim h [ ]
  filter-In p a (x ∷ xs) (here q) e = rw (← q) (rw e (here refl))
  filter-In p a (x ∷ xs) (there h) e = elim (Bool-cases (p x)) [
    | inl t ↦ rw t (there (filter-In p a xs h e))
    | inr f ↦ rw f (filter-In p a xs h e)
  ]

  pub All-In {κ} : (P : A → Type κ) (a : A) (xs : List A) → All P xs → In a xs → P a
  All-In P a [] h i = elim i [ ]
  All-In P a (x ∷ xs) h (here e) = subst P (sym e) h.0
  All-In P a (x ∷ xs) h (there i) = All-In P a xs h.1 i
