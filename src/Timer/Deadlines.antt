-- ===== src/Timer/Deadlines.antt =====
-- The abstract timer: its entries with their deadlines, in the order in which they expire.
use mymq.Base.{
  ℕ, ◌+◌, ◌-◌, ◌*◌, ◌%◌, ◌^◌, List, [], ◌∷◌, ltb, if◌then◌else◌, ◌≡◌, refl, arith, map, Bool-cases,
  inl, inr, ap, true, false,
}
use mymq.Timer.{Titem, timeout, sentinel, Timer, insert, add_timeout, close_loop}

module _ {ℓ} {T : Type ℓ} where
  -- The deadlines, counted from `at`, the deadline of the entry before.
  unfoldable pub deadlines : ℕ → Titem T → List (ℕ × T)
  deadlines at sentinel = []
  deadlines at (timeout delta value next) = (at + delta, value) ∷ deadlines (at + delta) next

  -- Put a deadline behind those that are not later.
  unfoldable pub insert_by : ℕ → T → List (ℕ × T) → List (ℕ × T)
  insert_by time value [] = (time, value) ∷ []
  insert_by time value ((u, v) ∷ l) =
      if ltb time u then (time, value) ∷ (u, v) ∷ l else (u, v) ∷ insert_by time value l

  pub deadlines-insert :
      (at ndelta : ℕ) (value : T) (c : Titem T)
      → deadlines at (insert ndelta value c) ≡ insert_by (at + ndelta) value (deadlines at c)
  unfolding deadlines insert insert_by
  deadlines-insert at ndelta value sentinel = refl
  deadlines-insert at ndelta value (timeout delta v next) = elim (Bool-cases (ltb ndelta delta)) [
    | inl e ↦
        let a : ltb (at + ndelta) (at + delta) ≡ true = ground arith in
        let b : at + ndelta + (delta - ndelta) ≡ at + delta = ground arith in
        rw (e, a, deadlines, b)
    | inr e ↦
        let a : ltb (at + ndelta) (at + delta) ≡ false = ground arith in
        let b : at + delta + (ndelta - delta) ≡ at + ndelta = ground arith in
        rw (e, a, deadlines, deadlines-insert (at + delta) (ndelta - delta) value next, b)
  ]

  -- `add_timeout` puts the entry in order: at `secs` seconds less the time that has passed since the
  -- timer's instant, behind the entries that are not later; every other deadline stays.
  pub deadlines-add_timeout :
      (t : Timer T) (elapsed secs : ℕ) (value : T)
      → (deadlines 0 (add_timeout t elapsed secs value).next
          ≡ insert_by (secs * 1000000 % 2 ^ 64 - elapsed) value (deadlines 0 t.next))
        × ((add_timeout t elapsed secs value).instant ≡ t.instant)
  unfolding add_timeout
  deadlines-add_timeout t elapsed secs value =
      let n = secs * 1000000 % 2 ^ 64 - elapsed in
      let z : 0 + n ≡ n = omega arith in (rw z at (deadlines-insert 0 n value t.next), refl)

  pub close_loop-deadlines : (at : ℕ) (c : Titem T) → close_loop c ≡ map (λ e. e.1) (deadlines at c)
  unfolding close_loop deadlines
  close_loop-deadlines at sentinel = refl
  close_loop-deadlines at (timeout delta value next) =
      ap (λ l. value ∷ l) (close_loop-deadlines (at + delta) next)
