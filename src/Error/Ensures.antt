-- ===== src/Error/Ensures.antt =====
-- What a result is if it is there: it is no panic, and a value satisfies a predicate.
use mymq.Base.{◌≡◌, refl}
use mymq.Error.{Result, panic, err, ok, ◌>>=◌}

abbrev pub Ensures : {A : Type 0} → (A → Type 0) → Result A → Type 0
Ensures P panic = ⊥
Ensures P (err failure) = Unit
Ensures P (ok val) = P val

-- An error or a value.
abbrev pub NoPanic : {A : Type 0} → Result A → Type 0
NoPanic r = Ensures (λ val. Unit {0}) r

pub Ensures-bind :
    {A B : Type 0} (P : A → Type 0) (Q : B → Type 0) (m : Result A) (f : A → Result B)
    → Ensures P m
    → ((a : A) → m ≡ ok a → P a → Ensures Q (f a))
    → Ensures Q (m >>= f)
Ensures-bind P Q panic f h next = absurd h
Ensures-bind P Q (err failure) f h next = tt
Ensures-bind P Q (ok val) f h next = next val refl h

pub Ensures-map :
    {A : Type 0} (P Q : A → Type 0) (m : Result A)
    → Ensures P m
    → ((a : A) → m ≡ ok a → P a → Q a)
    → Ensures Q m
Ensures-map P Q panic h step = absurd h
Ensures-map P Q (err failure) h step = tt
Ensures-map P Q (ok val) h step = step val refl h

pub Ensures-ok : {A : Type 0} (P : A → Type 0) (m : Result A) {a : A} → Ensures P m → m ≡ ok a → P a
Ensures-ok P panic h e = absurd h
Ensures-ok P (err failure) h e = cc
Ensures-ok P (ok val) {a} h e = let same : val ≡ a = cc in rw same at h

-- A result that is no panic ensures what its value does.
pub Ensures-equal :
    {A : Type 0} (P : A → Type 0) (r : Result A)
    → ((val : A) → r ≡ ok val → P val)
    → NoPanic r
    → Ensures P r
Ensures-equal P panic h safe = absurd safe
Ensures-equal P (err failure) h safe = tt
Ensures-equal P (ok val) h safe = h val refl

-- A step of which only its value matters.
pub NoPanic-bind :
    {A B : Type 0} (Q : B → Type 0) (m : Result A) (f : A → Result B)
    → NoPanic m
    → ((a : A) → m ≡ ok a → Ensures Q (f a))
    → Ensures Q (m >>= f)
NoPanic-bind Q panic f h next = absurd h
NoPanic-bind Q (err failure) f h next = tt
NoPanic-bind Q (ok val) f h next = next val refl
