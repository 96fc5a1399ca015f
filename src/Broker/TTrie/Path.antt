-- ===== src/Broker/TTrie/Path.antt =====
-- The abstract trie: the values stored under each path, and the invariant of the concrete one.
pub mod Names
pub mod Place
pub mod Values
use Prim.Native.Nat.{Ordering}
use Prim.Native.Nat.Ordering.{lt, eq, gt}
use mymq.Base.{Bool, true, false, List, [], ◌∷◌, Option, none, some, ◌≡◌, ◌≢◌, refl, All}
use mymq.Types.Utf8.{Str}
use mymq.Types.StrOrd.{cmp}
use mymq.Broker.TTrie.{
  Node, root, child, Nodes, nil, cons, Value, to_list, of_list, children, with_children, as_name,
  is_root, new_node,
}
use mymq.Broker.TTrie.Match.{values_of}
use Names.{Sorted, find}
use Values.{SortedValues}

module _ {ℓ} {V : Type ℓ} where
  -- The values under a path; a path that the trie does not have holds none.
  unfoldable pub values_at : List Str → Node V → List V
  values_at [] node = values_of node
  values_at (level ∷ path) node = elim (find level (children node)) [
    | none ↦ []
    | some c ↦ values_at path c
  ]

  abbrev pub at_child : Option (Node V) → List Str → List V
  at_child none path = []
  at_child (some c) path = values_at path c

  pub values_at-of_find :
      (m : Str) (path : List Str) (t : Node V) (r : Option (Node V))
      → find m (children t) ≡ r
      → values_at (m ∷ path) t ≡ at_child r path
  unfolding values_at
  values_at-of_find m path t none e = rw (e, values_at)
  values_at-of_find m path t (some c) e = rw (e, values_at)

  pub values_at-new_node :
      (name : Str) (path : List Str) → values_at path (new_node {V = V} name) ≡ []
  unfolding values_at values_of children to_list new_node find
  values_at-new_node name [] = refl
  values_at-new_node name (m ∷ path) = refl

  pub is_root-with_children :
      (n : Node V) (cs : List (Node V)) → is_root (with_children n cs) ≡ is_root n
  unfolding is_root with_children
  is_root-with_children (root _) cs = refl
  is_root-with_children (child name _ values) cs = refl

  pub as_name-with_children :
      (n : Node V) (cs : List (Node V)) → as_name (with_children n cs) ≡ as_name n
  unfolding as_name with_children
  as_name-with_children (root _) cs = refl
  as_name-with_children (child name _ values) cs = refl

  pub values_at-with_children_nil :
      (n : Node V) (cs : List (Node V)) → values_at [] (with_children n cs) ≡ values_at [] n
  unfolding values_at values_of with_children
  values_at-with_children_nil (root _) cs = refl
  values_at-with_children_nil (child name _ values) cs = refl

  pub same_children :
      (name : Str) (cs : Nodes V) (values values' : List V) (p : List Str)
      → p ≢ []
      → values_at p (child name cs values') ≡ values_at p (child name cs values)
  unfolding values_at children
  same_children name cs values values' [] ne = absurd (ne refl)
  same_children name cs values values' (m ∷ p) ne = refl

  pub to_list-of_list : (cs : List (Node V)) → to_list (of_list cs) ≡ cs
  unfolding to_list of_list
  to_list-of_list [] = refl
  to_list-of_list (c ∷ cs) = rw (to_list-of_list cs)

  pub children-with_children :
      (n : Node V) (cs : List (Node V)) → children (with_children n cs) ≡ cs
  unfolding children with_children
  children-with_children (root _) cs = to_list-of_list cs
  children-with_children (child name _ values) cs = to_list-of_list cs

module _ {ℓ} {V : Type ℓ} ⦃o : Value V⦄ where
  -- Names and values are in strict order, everywhere, and no child is a root.
  unfoldable mutual
    pub IsTrie : Node V → Type ℓ
    IsTrie (root cs) = Sorted (to_list cs) × AllTries cs
    IsTrie (child name cs values) = SortedValues values × Sorted (to_list cs) × AllTries cs

    pub AllTries : Nodes V → Type ℓ
    AllTries nil = Unit
    AllTries (cons c cs) = (is_root c ≡ false) × IsTrie c × AllTries cs

  abbrev pub IsBranch : Node V → Type ℓ
  IsBranch c = (is_root c ≡ false) × IsTrie c

  AllTries-All : (cs : Nodes V) → AllTries cs → All IsBranch (to_list cs)
  unfolding IsTrie to_list
  AllTries-All nil h = tt
  AllTries-All (cons c cs) h = ((h.0, h.1), AllTries-All cs h.2)

  All-AllTries : (cs : List (Node V)) → All IsBranch cs → AllTries (of_list cs)
  unfolding IsTrie of_list
  All-AllTries [] h = tt
  All-AllTries (c ∷ cs) h = (h.0.0, h.0.1, All-AllTries cs h.1)

  -- The invariant, read off a node and put together again.
  pub IsTrie-parts :
      (n : Node V)
      → IsTrie n
      → SortedValues (values_of n) × Sorted (children n) × All IsBranch (children n)
  unfolding IsTrie values_of children
  IsTrie-parts (root cs) h = (tt, h.0, AllTries-All cs h.1)
  IsTrie-parts (child name cs values) h = (h.0, h.1, AllTries-All cs h.2)

  pub with_children-IsTrie :
      (n : Node V) (cs : List (Node V))
      → SortedValues (values_of n)
      → Sorted cs
      → All IsBranch cs
      → IsTrie (with_children n cs)
  unfolding IsTrie values_of with_children
  with_children-IsTrie (root _) cs hv hs ha = (rw to_list-of_list hs, All-AllTries cs ha)
  with_children-IsTrie (child name _ values) cs hv hs ha =
      (hv, rw to_list-of_list hs, All-AllTries cs ha)

  pub values_of-with_children :
      (n : Node V) (cs : List (Node V)) → values_of (with_children n cs) ≡ values_of n
  unfolding values_of with_children
  values_of-with_children (root _) cs = refl
  values_of-with_children (child name _ values) cs = refl

  -- Other values in the same node.
  pub child-IsTrie :
      (name : Str) (cs : Nodes V) (values values' : List V)
      → SortedValues values'
      → IsTrie (child name cs values)
      → IsTrie (child name cs values')
  unfolding IsTrie
  child-IsTrie name cs values values' h ht = (h, ht.1, ht.2)

  pub values-SortedValues :
      (name : Str) (cs : Nodes V) (values : List V)
      → IsTrie (child name cs values)
      → SortedValues values
  unfolding IsTrie
  values-SortedValues name cs values ht = ht.0

pub new_node-IsTrie {ℓ} : (V : Type ℓ) ⦃o : Value V⦄ (name : Str) → IsTrie (new_node {V = V} name)
unfolding IsTrie new_node to_list
new_node-IsTrie V name = (tt, tt, tt)
