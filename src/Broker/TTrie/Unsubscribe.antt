-- ===== src/Broker/TTrie/Unsubscribe.antt =====
-- `unsub`: what the end of a subscription changes. `Unsubscribed` says it; the proofs are below.
pub mod Here
pub mod Step
pub mod Panics
use Prim.Native.Nat.{Ordering}
use Prim.Native.Nat.Ordering.{lt, eq, gt}
use mymq.Base.{
  ℕ, Bool, true, false, not, ◌&&◌, List, [], ◌∷◌, ◌++◌, Option, none, some, ◌≡◌, ◌≢◌, refl, sym,
  ◌∙◌, ap, ◌⊎◌, inl, inr, arith, length, All, if◌then◌else◌, Bool-cases,
}
use mymq.Error.{Result, ok, panic, ◌>>=◌}
use mymq.Types.Utf8.{Str}
use mymq.Types.StrOrd.{cmp, eq_or_ne}
use mymq.Broker.TTrie.{
  Node, root, child, Nodes, nil, cons, Value, children, with_children, as_name, is_root, is_empty,
  prune, search_level, search_value, remove_value, unsub,
}
use mymq.Broker.TTrie.Match.{values_of}
use mymq.Broker.TTrie.Vec.{Search, found, absent, remove_at, insert_at, binary_search_by}
use mymq.Broker.TTrie.Vec.Laws.{
  Hit, Miss, Outcome, binary_search_by-Outcome, remove_at-middle, insert_at-middle,
}
use mymq.Broker.TTrie.Path.{
  values_at, IsTrie, IsBranch, values_at-of_find, is_root-with_children, as_name-with_children,
  values_at-with_children_nil, child-IsTrie, values-SortedValues, same_children,
}
use mymq.Broker.TTrie.Path.Names.{find}
use mymq.Broker.TTrie.Path.Place.{
  Place, Hit-Place, Miss-Place, put-IsTrie, values_at-put_self, values_at-put_ne, drop-IsTrie,
  values_at-drop_self, values_at-drop_ne,
}
use mymq.Broker.TTrie.Path.Values.{
  IsOrdered, SortedValues, del_value, holds, deleted, deleted-del_value, del_value-SortedValues,
}
use mymq.Broker.TTrie.Subscribe.{is_nil}

abbrev pub is_eq : Ordering → Bool
is_eq eq = true
is_eq _ = false

module _ {ℓ} {V : Type ℓ} where
  -- A node that is not there has no values.
  abbrev pub opt_values_at : List Str → Option (Node V) → List V
  opt_values_at p none = []
  opt_values_at p (some n) = values_at p n

  pub values_at-is_empty : (n : Node V) (p : List Str) → is_empty n ≡ true → values_at p n ≡ []
  unfolding is_empty values_at values_of children find
  values_at-is_empty (root cs) p e = cc
  values_at-is_empty (child name nil []) [] e = refl
  values_at-is_empty (child name nil []) (m ∷ p) e = refl
  values_at-is_empty (child name nil (v ∷ values)) p e = cc
  values_at-is_empty (child name (cons c cs) values) p e = cc

  pub prune-some : (n m : Node V) → prune n ≡ some m → n ≡ m
  prune-some n m e = ground arith

  pub opt_values_at-prune : (n : Node V) (p : List Str) → opt_values_at p (prune n) ≡ values_at p n
  opt_values_at-prune n p = elim (Bool-cases (is_empty n)) [
    | inl e ↦ rw e (sym (values_at-is_empty n p e))
    | inr e ↦ rw e
  ]

module _ {ℓ} {V : Type ℓ} where
  -- What `unsub` returns for a node, given what it returned for the child that was split off.
  abbrev pub put_back : Node V → List (Node V) → List (Node V) → Option (Node V) → Option (Node V)
  put_back t before behind (some c) = some (with_children t (before ++ (c ∷ behind)))
  put_back t before behind none =
      if is_root t
      then some (with_children t (before ++ behind))
      else prune (with_children t (before ++ behind))

  pub opt_values_at-put_back :
      (t : Node V) (before behind : List (Node V)) (p : List Str)
      → opt_values_at p (put_back t before behind none)
        ≡ values_at p (with_children t (before ++ behind))
  opt_values_at-put_back t before behind p =
      ground (arith, opt_values_at-prune (with_children t (before ++ behind)) p)

  pub put_back-some :
      (t : Node V) (before behind : List (Node V)) (n : Node V)
      → put_back t before behind none ≡ some n
      → with_children t (before ++ behind) ≡ n
  put_back-some t before behind n e = ground arith

module _ {ℓ} {V : Type ℓ} ⦃o : Value V⦄ where
  -- The values that are left, whether the last one went, and whether there was none to take. A
  -- single value is compared by `==`, several by the order.
  unfoldable pub removed : V → List V → List V × Bool × Bool
  removed v [] = ([], false, true)
  removed v (w ∷ []) = if o.beq w v then ([], true, false) else (w ∷ [], false, true)
  removed v (w ∷ x ∷ values) = (del_value v (w ∷ x ∷ values), false, not (holds v (w ∷ x ∷ values)))

  pub record Unsubscribed (path : List Str) (v : V) (t : Node V) : Type ℓ where
    pub after : Option (Node V)
    pub last : Bool
    pub missing : Bool
    pub run : unsub path v t ≡ ok (after, last, missing)
    pub intact :
        (n : Node V) → after ≡ some n → IsTrie n × (is_root n ≡ is_root t) × (as_name n ≡ as_name t)
    pub root_stays : is_root t ≡ true → (n : Node V) × (after ≡ some n)
    pub here : opt_values_at path after ≡ (removed v (values_at path t)).0
    pub elsewhere : (p : List Str) → p ≢ path → opt_values_at p after ≡ values_at p t
    pub was_last : last ≡ (removed v (values_at path t)).1
    pub was_missing : missing ≡ (removed v (values_at path t)).2

  -- `==` agrees with the order on these values, for `v`.
  abbrev pub Agrees : V → List V → Type 0
  Agrees v values = All (λ w. o.beq w v ≡ is_eq (o.cmp_value w v)) values

  left : (v w x : V) (values : List V) → is_nil (del_value v (w ∷ x ∷ values)) ≡ false
  unfolding del_value
  left v w x values = ground arith

  pub removed-del_value :
      (v : V) (values : List V)
      → Agrees v values
      → removed v values
        ≡ (del_value v values, holds v values && is_nil (del_value v values), not (holds v values))
  unfolding removed
  removed-del_value v [] ag = unfold del_value holds in refl
  removed-del_value v (w ∷ []) ag = unfold del_value holds in ground arith
  removed-del_value v (w ∷ x ∷ values) ag = rw (left v w x values) (ground arith)
