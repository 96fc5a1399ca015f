-- ===== src/Timer/Expiry.antt =====
-- What `expired` and `gc` return and keep.
use mymq.Base.{
  ℕ, ◌+◌, ◌≤◌, ◌<◌, List, [], ◌∷◌, ◌++◌, Bool, true, false, ltb, if◌then◌else◌, Option, some, ◌≡◌,
  refl, arith, All, All-append, ap, sym, append_assoc, ◌∙◌,
}
use mathlib.Core.Option.{get_or}
use mymq.Timer.{
  Titem, close_loop, timeout, sentinel, Timer, close, expired_loop, expired, gc_loop, gc,
}
use mymq.Timer.Deadlines.{deadlines}
use mymq.Timer.Chain.{
  entries, values, total, due, lower, Waits, cons_inj, deadlines-due, due-append, due-lower,
  Waits-due, split,
}

module _ {ℓ} {T : Type ℓ} (is_deleted : T → Bool) where
  unfoldable pub live : List T → List T
  live [] = []
  live (v ∷ l) = let rest = live l in if is_deleted v then rest else v ∷ rest

  unfoldable pub dead : List T → List T
  dead [] = []
  dead (v ∷ l) = let rest = dead l in if is_deleted v then v ∷ rest else rest

module _ {ℓ} {T : Type ℓ} (is_deleted : T → Bool) where
  live-snoc :
      (front : List (ℕ × T)) (d : ℕ) (v : T)
      → is_deleted v ≡ false
      → live is_deleted (values (front ++ ((d, v) ∷ [])))
        ≡ live is_deleted (values front) ++ (v ∷ [])
  unfolding live
  live-snoc [] d v h = rw h refl
  live-snoc ((e, w) ∷ front) d v h = ground (arith, live-snoc front d v h)

  expired_loop-split :
      (micros : ℕ) (c : Titem T) (early late : List (ℕ × T))
      → entries c ≡ early ++ late
      → All (λ e. e.0 ≤ micros) early
      → Waits micros late
      → ((expired_loop is_deleted micros c).0 ≡ live is_deleted (values early))
        × (entries (expired_loop is_deleted micros c).1 ≡ lower micros late)
  unfolding expired_loop entries live
  expired_loop-split micros sentinel [] [] h reached waits = (refl, refl)
  expired_loop-split micros sentinel [] (e ∷ late) h reached waits = cc
  expired_loop-split micros sentinel (e ∷ early) late h reached waits = cc
  expired_loop-split micros (timeout delta value next) [] [] h reached waits = cc
  expired_loop-split micros (timeout delta value next) [] ((d, v) ∷ late) h reached waits =
      let (same, chain) = cons_inj h in
      let delta_same : delta ≡ d = ap (λ e. e.0) same in
      let stop : ltb micros delta ≡ true = ground arith in
      rw stop (refl, rw (delta_same, ap (λ e. e.1) same, chain))
  expired_loop-split micros (timeout delta value next) ((d, v) ∷ early) late h reached waits =
      let (same, chain) = cons_inj h in
      let delta_same : delta ≡ d = ap (λ e. e.0) same in
      let value_same : value ≡ v = ap (λ e. e.1) same in
      let go_on : ltb micros delta ≡ false = ground arith in
      let (gone, kept) = expired_loop-split micros next early late chain reached.1 waits in
      rw (go_on, value_same) (ground (arith, gone, kept))

  -- `expired` takes entries off the front of the timer as long as each one's own delta is reached,
  -- and stops at the first whose delta is not. It returns those of them that are not deleted, in
  -- their order, and moves the instant forward by `micros`. What it leaves has the first delta
  -- lowered by `micros` and every other one as it was; its deadlines were all beyond `micros`.
  pub expired_lem :
      (t : Timer T) (since : ℕ) (elapsed : Option ℕ)
      → let micros = get_or elapsed since in
        let (returned, t') = expired is_deleted t since elapsed in
        (early : List (ℕ × T)) × (late : List (ℕ × T)) × (entries t.next ≡ early ++ late)
        × All (λ e. e.0 ≤ micros) early
        × Waits micros late
        × (returned ≡ live is_deleted (values early))
        × (entries t'.next ≡ lower micros late)
        × (deadlines 0 t.next ≡ due 0 early ++ due (total early) late)
        × All (λ e. micros < e.0) (due (total early) late)
        × (t'.instant ≡ t.instant + micros)
  unfolding expired
  expired_lem t since elapsed =
      let micros = get_or elapsed since in
      let (early, late, all, reached, waits) = split micros (entries t.next) in
      let (gone, kept) = expired_loop-split micros t.next early late all reached waits in
      (
        early,
        late,
        all,
        reached,
        waits,
        gone,
        kept,
        deadlines-due 0 t.next ∙ ap (λ es. due 0 es) all ∙ due-append early late,
        Waits-due micros (total early) late waits,
        refl,
      )

  -- An entry is returned before its deadline. Let the deltas of some first entries and then of a
  -- live entry be reached one by one, and the next one's not, while the deadline of the live one,
  -- the sum of those deltas, is not reached: it is returned, behind those before it that are live.
  -- The entries that stay are due earlier by that sum than they were, counted from the old instant,
  -- `micros` before the new one.
  pub expired_early :
      (t : Timer T) (micros since d : ℕ) (v : T) (front late : List (ℕ × T))
      → entries t.next ≡ front ++ ((d, v) ∷ late)
      → All (λ e. e.0 ≤ micros) front
      → d ≤ micros
      → micros < total front + d
      → is_deleted v ≡ false
      → Waits micros late
      → let (returned, t') = expired is_deleted t since (some micros) in
        (returned ≡ live is_deleted (values front) ++ (v ∷ []))
        × (deadlines 0 t.next ≡ due 0 front ++ ((total front + d, v) ∷ due (total front + d) late))
        × (deadlines micros t'.next ≡ due 0 late)
  unfolding expired due
  expired_early t micros since d v front late h reached now beyond alive waits =
      let all : entries t.next ≡ (front ++ ((d, v) ∷ [])) ++ late =
        h ∙ sym (append_assoc front ((d, v) ∷ []) late) in
      let (gone, kept) =
        expired_loop-split micros t.next (front ++ ((d, v) ∷ [])) late all
          (All-append (λ e. e.0 ≤ micros) front ((d, v) ∷ []) reached (now, tt)) waits in
      (
        gone ∙ live-snoc front d v alive,
        deadlines-due 0 t.next ∙ ap (λ es. due 0 es) h ∙ due-append front ((d, v) ∷ late),
        deadlines-due micros _ ∙ (rw kept (due-lower micros late waits)),
      )

  gc_loop_lem :
      (c : Titem T)
      → ((gc_loop is_deleted c).0 ≡ dead is_deleted (close_loop c))
        × (close_loop (gc_loop is_deleted c).1 ≡ live is_deleted (close_loop c))
  unfolding gc_loop close_loop dead live
  gc_loop_lem sentinel = (refl, refl)
  gc_loop_lem (timeout delta value next) = ground (arith, gc_loop_lem next)

  gc_loop_none : (c : Titem T) → dead is_deleted (close_loop c) ≡ [] → (gc_loop is_deleted c).1 ≡ c
  unfolding gc_loop close_loop dead
  gc_loop_none sentinel h = refl
  gc_loop_none (timeout delta value next) h = ground (arith, gc_loop_none next)

  -- `gc` returns the deleted entries and keeps the others, in their order.
  pub gc_lem :
      (t : Timer T)
      → let (values, t') = gc is_deleted t in
        (values ≡ dead is_deleted (close t))
        × (close t' ≡ live is_deleted (close t))
        × (t'.instant ≡ t.instant)
  unfolding gc close
  gc_lem t = ((gc_loop_lem t.next).0, (gc_loop_lem t.next).1, refl)

  -- But it drops a deleted entry's delta with it: what stood behind is due earlier by as much.
  pub gc_early :
      (t : Timer T) (d : ℕ) (v : T) (next : Titem T)
      → t.next ≡ timeout d v next
      → is_deleted v ≡ true
      → dead is_deleted (close_loop next) ≡ []
      → (deadlines 0 t.next ≡ (d, v) ∷ deadlines d next)
        × (deadlines 0 (gc is_deleted t).1.next ≡ deadlines 0 next)
  unfolding gc gc_loop deadlines
  gc_early t d v next h hv hn =
      let z : 0 + d ≡ d = omega arith in rw h (rw z, rw (hv, gc_loop_none next hn))
