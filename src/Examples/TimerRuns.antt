-- ===== src/Examples/TimerRuns.antt =====
-- Runs of the timer.
use mymq.Base.{
  ℕ, ◌+◌, ◌-◌, ◌*◌, ◌%◌, ◌^◌, ◌<◌, ◌≤◌, Bool, List, [], ◌∷◌, ◌++◌, none, some, ◌≡◌, refl, All,
  arith, ◌==◌,
}
use mymq.Timer.{Timer, timeout, sentinel, add_timeout, close, close_loop, expired, gc}
use mymq.Timer.Deadlines.{deadlines, insert_by, deadlines-add_timeout}
use mymq.Timer.Chain.{entries, values, total, due, lower, Waits}
use mymq.Timer.Expiry.{live, dead, expired_lem, expired_early, gc_lem, gc_early}

-- Two entries, after 5 and after 5 + 3 microseconds; the first is deleted.
abbrev two : Timer ℕ
two = record { instant = 0; next = timeout 5 11 (timeout 3 12 sentinel) }

abbrev is_eleven : ℕ → Bool
is_eleven v = v == 11

abbrev is_zero : ℕ → Bool
is_zero v = v == 0

deadlines-add_timeout_example :
    (deadlines 0 (add_timeout two 2 1 13).next
      ≡ insert_by (1 * 1000000 % 2 ^ 64 - 2) 13 (deadlines 0 two.next))
    × ((add_timeout two 2 1 13).instant ≡ two.instant)
deadlines-add_timeout_example = deadlines-add_timeout two 2 1 13

-- After 6 microseconds, by each one's own delta.
expired_lem_example :
    (early : List (ℕ × ℕ)) × (late : List (ℕ × ℕ)) × (entries two.next ≡ early ++ late)
    × All (λ e. e.0 ≤ 6) early
    × Waits 6 late
    × ((expired is_eleven two 6 none).0 ≡ live is_eleven (values early))
    × (entries (expired is_eleven two 6 none).1.next ≡ lower 6 late)
    × (deadlines 0 two.next ≡ due 0 early ++ due (total early) late)
    × All (λ e. 6 < e.0) (due (total early) late)
    × ((expired is_eleven two 6 none).1.instant ≡ two.instant + 6)
expired_lem_example = expired_lem is_eleven two 6 none

-- After 5, 5 + 3 and 5 + 3 + 9 microseconds, none of them deleted.
abbrev three : Timer ℕ
three = record { instant = 0; next = timeout 5 11 (timeout 3 12 (timeout 9 13 sentinel)) }

abbrev reached_first : List (ℕ × ℕ)
reached_first = (5, 11) ∷ []

three-entries : entries three.next ≡ reached_first ++ ((3, 12) ∷ (9, 13) ∷ [])
unfolding entries
three-entries = refl

five_lasts : 5 < total reached_first + 3
unfolding total
five_lasts = omega arith

-- After 5 microseconds the entry of 8 is returned as well, and that of 17 is due after 9.
expired_early_example :
    ((expired is_zero three 0 (some 5)).0 ≡ live is_zero (values reached_first) ++ (12 ∷ []))
    × (deadlines 0 three.next
        ≡ due 0 reached_first
          ++ ((total reached_first + 3, 12) ∷ due (total reached_first + 3) ((9, 13) ∷ [])))
    × (deadlines 5 (expired is_zero three 0 (some 5)).1.next ≡ due 0 ((9, 13) ∷ []))
expired_early_example =
    expired_early is_zero three 5 0 3 12 reached_first ((9, 13) ∷ []) three-entries
      (omega arith, tt) (omega arith) five_lasts refl (omega arith)

gc_lem_example :
    ((gc is_eleven two).0 ≡ dead is_eleven (close two))
    × (close (gc is_eleven two).1 ≡ live is_eleven (close two))
    × ((gc is_eleven two).1.instant ≡ two.instant)
gc_lem_example = gc_lem is_eleven two

gc_early_example :
    (deadlines 0 two.next ≡ (5, 11) ∷ deadlines 5 (timeout 3 12 sentinel))
    × (deadlines 0 (gc is_eleven two).1.next ≡ deadlines 0 (timeout 3 12 sentinel))
gc_early_example =
    gc_early is_eleven two 5 11 (timeout 3 12 sentinel) refl refl (unfold dead close_loop in refl)
