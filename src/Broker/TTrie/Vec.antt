-- ===== src/Broker/TTrie/Vec.antt =====
-- What ttrie.rs uses of `Vec`, on lists.
pub mod Laws
use Prim.Native.Nat.{Ordering}
use Prim.Native.Nat.Ordering.{lt, eq, gt}
use mymq.Base.{ℕ, zero, suc, Bool, List, [], ◌∷◌, Option, none, some, if◌then◌else◌}
use mathlib.Core.Option

-- `Result<usize, usize>` of a binary search: `Ok(off)` and `Err(off)`.
pub data Search : Type 0 where
  found absent : ℕ → Search

abbrev pub shift : Search → Search
shift (found off) = found (suc off)
shift (absent off) = absent (suc off)

module _ {ℓ} {A : Type ℓ} where
  -- `binary_search_by` on a vector that is sorted with respect to `f`, where its result is
  -- determined: the offset of the match, or the one that keeps the vector sorted.
  unfoldable pub binary_search_by : (A → Ordering) → List A → Search
  binary_search_by f [] = absent 0
  binary_search_by f (x ∷ xs) = elim (f x) [
    | lt ↦ shift (binary_search_by f xs)
    | eq ↦ found 0
    | gt ↦ absent 0
  ]

  -- `remove(off)`; `none` is its panic.
  unfoldable pub remove_at : ℕ → List A → Option (A × List A)
  remove_at off [] = none
  remove_at zero (x ∷ xs) = some (x, xs)
  remove_at (suc off) (x ∷ xs) = Option.map (λ p. (p.0, x ∷ p.1)) (remove_at off xs)

  unfoldable pub insert_at : ℕ → A → List A → List A
  insert_at zero a xs = a ∷ xs
  insert_at (suc off) a [] = a ∷ []
  insert_at (suc off) a (x ∷ xs) = x ∷ insert_at off a xs

  unfoldable pub filter : (A → Bool) → List A → List A
  filter p [] = []
  filter p (x ∷ xs) = let rest = filter p xs in if p x then x ∷ rest else rest
