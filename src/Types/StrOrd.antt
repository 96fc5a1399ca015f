-- ===== src/Types/StrOrd.antt =====
-- The order of Rust's `str`, lexicographic. (UTF-8 keeps the order of characters.)
use Prim.Native.Nat.{compare, Ordering}
use Prim.Native.Nat.Ordering.{lt, eq, gt}
use mymq.Base.{[], ◌∷◌, ◌≡◌, ◌≢◌, ◌⊎◌, inl, inr, refl, arith}
use mymq.Types.Utf8.{Str}

unfoldable pub cmp : Str → Str → Ordering
cmp [] [] = eq
cmp [] (d ∷ t) = lt
cmp (c ∷ s) [] = gt
cmp (c ∷ s) (d ∷ t) = elim (compare c d) [ lt ↦ lt | eq ↦ cmp s t | gt ↦ gt ]

pub cmp_refl : (s : Str) → cmp s s ≡ eq
unfolding cmp
cmp_refl [] = refl
cmp_refl (c ∷ s) = ground (arith, cmp_refl s)

pub eq_of_cmp : (s t : Str) → cmp s t ≡ eq → s ≡ t
unfolding cmp
eq_of_cmp [] [] h = refl
eq_of_cmp [] (d ∷ t) h = cc
eq_of_cmp (c ∷ s) [] h = cc
eq_of_cmp (c ∷ s) (d ∷ t) h = ground (arith, eq_of_cmp s t)

pub gt_of_lt : (s t : Str) → cmp s t ≡ lt → cmp t s ≡ gt
unfolding cmp
gt_of_lt [] [] h = cc
gt_of_lt [] (d ∷ t) h = refl
gt_of_lt (c ∷ s) [] h = cc
gt_of_lt (c ∷ s) (d ∷ t) h = ground (arith, gt_of_lt s t)

pub lt_of_gt : (s t : Str) → cmp s t ≡ gt → cmp t s ≡ lt
unfolding cmp
lt_of_gt [] [] h = cc
lt_of_gt [] (d ∷ t) h = cc
lt_of_gt (c ∷ s) [] h = refl
lt_of_gt (c ∷ s) (d ∷ t) h = ground (arith, lt_of_gt s t)

pub lt_trans : (s t u : Str) → cmp s t ≡ lt → cmp t u ≡ lt → cmp s u ≡ lt
unfolding cmp
lt_trans [] [] u h k = cc
lt_trans [] (d ∷ t) [] h k = cc
lt_trans [] (d ∷ t) (e ∷ u) h k = refl
lt_trans (c ∷ s) [] u h k = cc
lt_trans (c ∷ s) (d ∷ t) [] h k = cc
lt_trans (c ∷ s) (d ∷ t) (e ∷ u) h k = ground (arith, lt_trans s t u)

pub eq_or_ne : (s t : Str) → (s ≡ t) ⊎ (s ≢ t)
eq_or_ne s t = go (cmp s t) refl
  where
    go : (r : Ordering) → cmp s t ≡ r → (s ≡ t) ⊎ (s ≢ t)
    go lt e = inr (λ p. cc (p, cmp_refl t))
    go eq e = inl (eq_of_cmp s t e)
    go gt e = inr (λ p. cc (p, cmp_refl t))
