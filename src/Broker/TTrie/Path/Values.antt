-- ===== src/Broker/TTrie/Path/Values.antt =====
-- The values of one node: in strict order, with insertion and removal on the sorted list.
use Prim.Native.Nat.Ordering.{lt, eq, gt}
use mymq.Base.{Bool, true, false, List, [], ◌∷◌, Option, some, ◌≡◌, refl, All, arith, not}
use mathlib.Core.Option
use mymq.Broker.TTrie.Vec.{Search, shift, found, absent, insert_at, remove_at}
use mymq.Broker.TTrie.{Value, search_value}

-- The laws of `V: Ord`: a total order of classes, to which `==` is finer.
pub record IsOrdered {ℓ} {V : Type ℓ} (o : Value V) : Type ℓ where
  pub cmp_refl : (v : V) → o.cmp_value v v ≡ eq
  pub gt_of_lt : (v w : V) → o.cmp_value v w ≡ lt → o.cmp_value w v ≡ gt
  pub lt_of_gt : (v w : V) → o.cmp_value v w ≡ gt → o.cmp_value w v ≡ lt
  pub lt_trans : (v w x : V) → o.cmp_value v w ≡ lt → o.cmp_value w x ≡ lt → o.cmp_value v x ≡ lt
  pub beq_refl : (v : V) → o.beq v v ≡ true

module _ {ℓ} {V : Type ℓ} ⦃o : Value V⦄ where
  abbrev pub SortedValues : List V → Type ℓ
  SortedValues [] = Unit
  SortedValues (v ∷ values) = All (λ w. o.cmp_value v w ≡ lt) values × SortedValues values

  -- Insertion into the sorted values; a value that is there already, up to the order, stays.
  unfoldable pub add_value : V → List V → List V
  add_value v [] = v ∷ []
  add_value v (w ∷ values) = elim (o.cmp_value w v) [
    | lt ↦ w ∷ add_value v values
    | eq ↦ w ∷ values
    | gt ↦ v ∷ w ∷ values
  ]

  -- Whether the sorted values hold one that is equal to `v` in the order.
  unfoldable pub holds : V → List V → Bool
  holds v [] = false
  holds v (w ∷ values) = elim (o.cmp_value w v) [ lt ↦ holds v values | eq ↦ true | gt ↦ false ]

  unfoldable pub del_value : V → List V → List V
  del_value v [] = []
  del_value v (w ∷ values) = elim (o.cmp_value w v) [
    | lt ↦ w ∷ del_value v values
    | eq ↦ values
    | gt ↦ w ∷ values
  ]

  abbrev pub added : V → List V → Search → List V × Bool
  added v values (absent off) = (insert_at off v values, false)
  added v values (found off) = (values, true)

  added-shift :
      (v w : V) (values : List V) (r : Search)
      → added v (w ∷ values) (shift r) ≡ (w ∷ (added v values r).0, (added v values r).1)
  unfolding insert_at
  added-shift v w values (found off) = refl
  added-shift v w values (absent off) = refl

  pub added-add_value :
      (v : V) (values : List V)
      → added v values (search_value v values) ≡ (add_value v values, holds v values)
  unfolding search_value add_value holds insert_at
  added-add_value v [] = refl
  added-add_value v (w ∷ values) =
      ground (arith, added-shift v w values (search_value v values), added-add_value v values)

  abbrev pub deleted : V → List V → Search → Option (List V) × Bool
  deleted v values (absent off) = (some values, true)
  deleted v values (found off) = (Option.map (λ p. p.1) (remove_at off values), false)

  deleted-shift :
      (v w : V) (values : List V) (r : Search)
      → deleted v (w ∷ values) (shift r)
        ≡ (Option.map (λ l. w ∷ l) (deleted v values r).0, (deleted v values r).1)
  unfolding remove_at
  deleted-shift v w values (found off) = ground arith
  deleted-shift v w values (absent off) = refl

  pub deleted-del_value :
      (v : V) (values : List V)
      → deleted v values (search_value v values) ≡ (some (del_value v values), not (holds v values))
  unfolding search_value del_value holds remove_at
  deleted-del_value v [] = refl
  deleted-del_value v (w ∷ values) =
      ground (arith, deleted-shift v w values (search_value v values), deleted-del_value v values)

module _ {ℓ} {V : Type ℓ} ⦃o : Value V⦄ (l : IsOrdered o) where
  All-add_value :
      (x v : V) (values : List V)
      → o.cmp_value x v ≡ lt
      → All (λ w. o.cmp_value x w ≡ lt) values
      → All (λ w. o.cmp_value x w ≡ lt) (add_value v values)
  unfolding add_value
  All-add_value x v [] e h = (e, tt)
  All-add_value x v (w ∷ values) e h = ground (arith, All-add_value x v values e h.1)

  All-lt_trans :
      (v w : V) (values : List V)
      → o.cmp_value v w ≡ lt
      → All (λ x. o.cmp_value w x ≡ lt) values
      → All (λ x. o.cmp_value v x ≡ lt) values
  All-lt_trans v w [] e h = tt
  All-lt_trans v w (x ∷ values) e h = (l.lt_trans v w x e h.0, All-lt_trans v w values e h.1)

  pub add_value-SortedValues :
      (v : V) (values : List V) → SortedValues values → SortedValues (add_value v values)
  unfolding add_value
  add_value-SortedValues v [] h = (tt, tt)
  add_value-SortedValues v (w ∷ values) h = ground (
    arith,
    add_value-SortedValues v values h.1,
    All-add_value w v values,
    All-lt_trans v w values,
    l.lt_of_gt w v,
  )

  All-del_value :
      (x v : V) (values : List V)
      → All (λ w. o.cmp_value x w ≡ lt) values
      → All (λ w. o.cmp_value x w ≡ lt) (del_value v values)
  unfolding del_value
  All-del_value x v [] h = tt
  All-del_value x v (w ∷ values) h = ground (arith, All-del_value x v values h.1)

  pub del_value-SortedValues :
      (v : V) (values : List V) → SortedValues values → SortedValues (del_value v values)
  unfolding del_value
  del_value-SortedValues v [] h = tt
  del_value-SortedValues v (w ∷ values) h =
      ground (arith, del_value-SortedValues v values h.1, All-del_value w v values h.0)

  pub holds-add_value : (v : V) (values : List V) → holds v (add_value v values) ≡ true
  unfolding holds add_value
  holds-add_value v [] = ground (arith, l.cmp_refl v)
  holds-add_value v (w ∷ values) = ground (arith, l.cmp_refl v, holds-add_value v values)
