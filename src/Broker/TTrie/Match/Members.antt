-- ===== src/Broker/TTrie/Match/Members.antt =====
-- In a sorted list of children, membership and the search by name say the same.
use Prim.Native.Nat.{Ordering}
use Prim.Native.Nat.Ordering.{lt, eq, gt}
use mymq.Base.{List, [], ◌∷◌, some, ◌≡◌, refl, sym, arith, of_some}
use mathlib.Core.Path.{subst}
use mymq.Types.Utf8.{Str}
use mymq.Types.StrOrd.{cmp, cmp_refl, eq_of_cmp}
use mymq.Broker.TTrie.{Node, as_name}
use mymq.Broker.TTrie.Match.Filters.{In, here, there, All-In}
use mymq.Broker.TTrie.Path.Names.{Sorted, Before, find}

module _ {ℓ} {V : Type ℓ} where
  -- In a sorted list a member is what its name finds, and what a name finds is a member.
  pub find-In :
      (name : Str) (c : Node V) (cs : List (Node V))
      → find name cs ≡ some c
      → In c cs × (as_name c ≡ name)
  unfolding find
  find-In name c [] e = cc
  find-In name c (d ∷ cs) e = go (cmp (as_name d) name) refl e (find-In name c cs)
    where
      go :
          (r : Ordering)
          → cmp (as_name d) name ≡ r
          → (elim r [ eq ↦ some d | _ ↦ find name cs ]) ≡ some c
          → (find name cs ≡ some c → In c cs × (as_name c ≡ name))
          → In c (d ∷ cs) × (as_name c ≡ name)
      go eq q f rec =
          let same : d ≡ c = of_some f in
          (here (sym same), subst (λ x. as_name x ≡ name) same (eq_of_cmp (as_name d) name q))
      go lt q f rec = let (i, n) = rec f in (there i, n)
      go gt q f rec = let (i, n) = rec f in (there i, n)

  pub In-find :
      (c : Node V) (cs : List (Node V)) → Sorted cs → In c cs → find (as_name c) cs ≡ some c
  unfolding find
  In-find c [] h i = elim i [ ]
  In-find c (d ∷ cs) h (here e) =
      subst (λ x. find (as_name c) (x ∷ cs) ≡ some c) e (ground (arith, cmp_refl (as_name c)))
  In-find c (d ∷ cs) h (there i) = ground (arith, All-In (Before d) c cs h.0 i, In-find c cs h.1 i)
