-- ===== src/Timer.antt =====
-- timer.rs: a differential timer, a chain of entries of which each holds the microseconds from the
-- entry before it. `Titem::Head` only ever stands first, and is the record `Timer` itself here.
pub mod Deadlines
pub mod Chain
pub mod Expiry
use mymq.Base.{
  ℕ, ◌+◌, ◌-◌, ◌*◌, ◌%◌, ◌^◌, List, [], ◌∷◌, Bool, ltb, if◌then◌else◌, Option, none, some,
}
use mathlib.Core.Option.{get_or}

pub data Titem {ℓ} (T : Type ℓ) : Type ℓ where
  timeout : ℕ → T → Titem T → Titem T
  sentinel : Titem T

-- `instant` is in microseconds.
pub record Timer {ℓ} (T : Type ℓ) : Type ℓ where
  pub instant : ℕ
  pub next : Titem T

module _ {ℓ} {T : Type ℓ} where
  -- The loop of `add_timeout`.
  unfoldable pub insert : ℕ → T → Titem T → Titem T
  insert ndelta value sentinel = timeout ndelta value sentinel
  insert ndelta value (timeout delta v next) =
      let rest = insert (ndelta - delta) value next in
      if ltb ndelta delta
      then timeout ndelta value (timeout (delta - ndelta) v next)
      else timeout delta v rest

  -- `elapsed` is `self.instant.elapsed()`; `-` stops at 0, as `saturating_sub` does.
  unfoldable pub add_timeout : Timer T → ℕ → ℕ → T → Timer T
  add_timeout t elapsed secs value =
      let micros = secs * 1000000 % 2 ^ 64 in
      record t { next = insert (micros - elapsed) value t.next }

  unfoldable pub close_loop : Titem T → List T
  close_loop sentinel = []
  close_loop (timeout delta value next) = value ∷ close_loop next

  unfoldable pub close : Timer T → List T
  unfolding close_loop
  close t = close_loop t.next

  module _ (is_deleted : T → Bool) where
    -- The loop of `expired`: the values returned, and the chain left.
    unfoldable pub expired_loop : ℕ → Titem T → List T × Titem T
    expired_loop micros sentinel = ([], sentinel)
    expired_loop micros (timeout delta value next) =
        let (values, rest) = expired_loop micros next in
        if ltb micros delta
        then ([], timeout (delta - micros) value next)
        else if is_deleted value
        then (values, rest)
        else (value ∷ values, rest)

    unfoldable pub expired : Timer T → ℕ → Option ℕ → List T × Timer T
    expired t since elapsed =
        let micros = get_or elapsed since in
        let (values, rest) = expired_loop micros t.next in
        (values, record { instant = t.instant + micros; next = rest })

    unfoldable pub gc_loop : Titem T → List T × Titem T
    gc_loop sentinel = ([], sentinel)
    gc_loop (timeout delta value next) =
        let (values, rest) = gc_loop next in
        if is_deleted value then (value ∷ values, rest) else (values, timeout delta value rest)

    unfoldable pub gc : Timer T → List T × Timer T
    gc t = let (values, rest) = gc_loop t.next in (values, record t { next = rest })
