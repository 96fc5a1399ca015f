-- ===== src/Timer/Chain.antt =====
-- A chain of the timer as the list of its entries with their deltas.
use mymq.Base.{
  ℕ, ◌+◌, ◌-◌, ◌≤◌, ◌<◌, List, [], ◌∷◌, ◌++◌, ltb, ◌≡◌, refl, arith, map, Bool-cases, inl, inr, All,
}
use mymq.Timer.{Titem, timeout, sentinel}
use mymq.Timer.Deadlines.{deadlines}

module _ {ℓ} {T : Type ℓ} where
  -- The entries of a chain with their deltas.
  unfoldable pub entries : Titem T → List (ℕ × T)
  entries sentinel = []
  entries (timeout delta value next) = (delta, value) ∷ entries next

  abbrev pub values : List (ℕ × T) → List T
  values l = map (λ e. e.1) l

  unfoldable pub total : List (ℕ × T) → ℕ
  total [] = 0
  total ((delta, value) ∷ l) = delta + total l

  -- The deadlines of entries that stand behind the deadline `at`.
  unfoldable pub due : ℕ → List (ℕ × T) → List (ℕ × T)
  due at [] = []
  due at ((delta, value) ∷ l) = (at + delta, value) ∷ due (at + delta) l

  pub cons_inj : {a b : ℕ × T} {l m : List (ℕ × T)} → (a ∷ l) ≡ (b ∷ m) → (a ≡ b) × (l ≡ m)
  cons_inj h = (cc, cc)

  -- The first delta is lowered.
  abbrev pub lower : ℕ → List (ℕ × T) → List (ℕ × T)
  lower micros [] = []
  lower micros ((delta, value) ∷ l) = (delta - micros, value) ∷ l

  -- The first delta is not reached.
  abbrev pub Waits : ℕ → List (ℕ × T) → Type 0
  Waits micros [] = Unit
  Waits micros ((delta, value) ∷ l) = micros < delta

  pub deadlines-due : (at : ℕ) (c : Titem T) → deadlines at c ≡ due at (entries c)
  unfolding deadlines due entries
  deadlines-due at sentinel = refl
  deadlines-due at (timeout delta value next) = rw (deadlines-due (at + delta) next)

  due_at-append : (at : ℕ) (l m : List (ℕ × T)) → due at (l ++ m) ≡ due at l ++ due (at + total l) m
  unfolding due total
  due_at-append at [] m = let z : at + 0 ≡ at = omega arith in rw z
  due_at-append at ((delta, value) ∷ l) m =
      let z : at + delta + total l ≡ at + (delta + total l) = omega arith in
      rw (due_at-append (at + delta) l m, z)

  pub due-append : (l m : List (ℕ × T)) → due 0 (l ++ m) ≡ due 0 l ++ due (total l) m
  due-append l m = let z : 0 + total l ≡ total l = omega arith in rw z at (due_at-append 0 l m)

  pub due-lower : (at : ℕ) (l : List (ℕ × T)) → Waits at l → due at (lower at l) ≡ due 0 l
  unfolding due
  due-lower at [] h = refl
  due-lower at ((delta, value) ∷ l) h = let z : at + (delta - at) ≡ 0 + delta = omega arith in rw z

  due_after : (b at : ℕ) (l : List (ℕ × T)) → b < at → All (λ e. b < e.0) (due at l)
  unfolding due
  due_after b at [] h = tt
  due_after b at ((delta, value) ∷ l) h = (omega arith, due_after b (at + delta) l (omega arith))

  pub Waits-due : (b at : ℕ) (l : List (ℕ × T)) → Waits b l → All (λ e. b < e.0) (due at l)
  unfolding due
  Waits-due b at [] h = tt
  Waits-due b at ((delta, value) ∷ l) h = (omega arith, due_after b (at + delta) l (omega arith))

  -- The entries that are reached one by one, and the others.
  pub split :
      (micros : ℕ) (l : List (ℕ × T))
      → (early : List (ℕ × T)) × (late : List (ℕ × T)) × (l ≡ early ++ late)
        × All (λ e. e.0 ≤ micros) early
        × Waits micros late
  split micros [] = ([], [], refl, tt, tt)
  split micros ((delta, value) ∷ l) = elim (Bool-cases (ltb micros delta)) [
    | inl e ↦ ([], (delta, value) ∷ l, refl, tt, ground arith)
    | inr e ↦
        let (early, late, all, reached, waits) = split micros l in
        ((delta, value) ∷ early, late, rw all, (ground arith, reached), waits)
  ]
