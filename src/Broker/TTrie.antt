-- ===== src/Broker/TTrie.antt =====
-- ttrie.rs: the trie of topic filters, or of topic names, with the values stored under each.
pub mod Vec
pub mod Match
pub mod Path
pub mod Subscribe
pub mod Unsubscribe
use Prim.Native.Nat.{Ordering}
use mymq.Base.{
  ℕ, Bool, true, false, not, ◌||◌, ◌&&◌, List, [], ◌∷◌, ◌++◌, Option, none, some, if◌then◌else◌,
}
use mymq.Error.{Result, ok, panic, ◌>>=◌}
use mymq.Types.Utf8.{Str}
use mymq.Types.StrOrd.{cmp}
use Vec.{Search, found, absent, binary_search_by, remove_at, insert_at}

mutual
  pub data Node {ℓ} (V : Type ℓ) : Type ℓ where
    root : Nodes V → Node V
    child : Str → Nodes V → List V → Node V

  -- `Vec<Arc<Node<V>>>`
  pub data Nodes {ℓ} (V : Type ℓ) : Type ℓ where
    nil : Nodes V
    cons : Node V → Nodes V → Nodes V

module _ {ℓ} {V : Type ℓ} where
  unfoldable pub to_list : Nodes V → List (Node V)
  to_list nil = []
  to_list (cons c cs) = c ∷ to_list cs

  unfoldable pub of_list : List (Node V) → Nodes V
  of_list [] = nil
  of_list (c ∷ cs) = cons c (of_list cs)

  unfoldable pub children : Node V → List (Node V)
  unfolding to_list
  children (root cs) = to_list cs
  children (child name cs values) = to_list cs

  unfoldable pub with_children : Node V → List (Node V) → Node V
  unfolding of_list
  with_children (root _) cs = root (of_list cs)
  with_children (child name _ values) cs = child name (of_list cs) values

  unfoldable pub new_node : Str → Node V
  new_node name = child name nil []

  -- Only children are asked for a name: a root, where the code panics, is never one (`IsTrie`).
  unfoldable pub as_name : Node V → Str
  as_name (child name cs values) = name
  as_name (root cs) = []

  unfoldable pub is_root : Node V → Bool
  is_root (root cs) = true
  is_root (child name cs values) = false

  unfoldable pub is_empty : Node V → Bool
  is_empty (child name nil []) = true
  is_empty _ = false

  -- `None` for a node that is left empty
  abbrev pub prune : Node V → Option (Node V)
  prune node = if is_empty node then none else some node

  -- `children.binary_search_by_key(&in_level, |n| n.as_name())`
  unfoldable pub search_level : Str → List (Node V) → Search
  unfolding binary_search_by as_name
  search_level in_level cs = binary_search_by (λ n. cmp (as_name n) in_level) cs

-- `V: Ord` and `V: Eq` as the trie uses them.
pub record Value {ℓ} (V : Type ℓ) : Type ℓ where
  pub cmp_value : V → V → Ordering
  pub beq : V → V → Bool

module _ {ℓ} {V : Type ℓ} ⦃o : Value V⦄ where
  unfoldable pub search_value : V → List V → Search
  unfolding binary_search_by
  search_value value values = binary_search_by (λ w. o.cmp_value w value) values

  -- (first, repeat)
  unfoldable pub insert_value : V → Node V → Result (Node V × Bool × Bool)
  insert_value value (root cs) = panic
  insert_value value (child name cs []) = ok (child name cs (value ∷ []), true, false)
  insert_value value (child name cs (w ∷ values)) = elim (search_value value (w ∷ values)) [
    | absent off ↦ ok (child name cs (insert_at off value (w ∷ values)), false, false)
    | found off ↦ ok (child name cs (w ∷ values), false, true)
  ]

  -- (last, missing). A node without values is `unreachable!`.
  unfoldable pub remove_value : V → Node V → Result (Node V × Bool × Bool)
  remove_value value (root cs) = panic
  remove_value value (child name cs []) = panic
  remove_value value (child name cs (w ∷ [])) =
      if o.beq w value
      then ok (child name cs [], true, false)
      else ok (child name cs (w ∷ []), false, true)
  remove_value value (child name cs (w ∷ x ∷ values)) = elim (search_value value (w ∷ x ∷ values)) [
    | absent off ↦ ok (child name cs (w ∷ x ∷ values), false, true)
    | found off ↦ elim (remove_at off (w ∷ x ∷ values)) [
      | none ↦ panic
      | some (_, rest) ↦ ok (child name cs rest, false, false)
    ]
  ]

  -- (root, first, repeat)
  unfoldable pub sub : List Str → V → Node V → Result (Node V × Bool × Bool)
  sub [] value node = insert_value value node
  sub (in_level ∷ in_levels) value node = elim (search_level in_level (children node)) [
    | found off ↦ elim (remove_at off (children node)) [
      | none ↦ panic
      | some (c, rest) ↦ do
        (c', first, repeat) ← sub in_levels value c
        ok (with_children node (insert_at off c' rest), first, repeat)
    ]
    | absent off ↦ do
      (c', first, repeat) ← sub in_levels value (new_node in_level)
      ok (with_children node (insert_at off c' (children node)), first, repeat)
  ]

  -- (root, last, missing)
  unfoldable pub unsub : List Str → V → Node V → Result (Option (Node V) × Bool × Bool)
  unsub [] val node = do
    (node', last, missing) ← remove_value val node
    ok (prune node', last, missing)
  unsub (in_level ∷ inl) val node = elim (search_level in_level (children node)) [
    | absent off ↦ ok (some node, false, true)
    | found off ↦ elim (remove_at off (children node)) [
      | none ↦ panic
      | some (c, rest) ↦ do
        (c', last, missing) ← unsub inl val c
        ok (
          elim c' [
            | some c' ↦ some (with_children node (insert_at off c' rest))
            | none ↦
                if is_root node
                then some (with_children node rest)
                else prune (with_children node rest)
          ],
          last,
          missing,
        )
    ]
  ]

module _ {ℓ} {V : Type ℓ} where
  unfoldable pub replace_value : V → Node V → Result (Node V × Bool)
  replace_value value (root cs) = panic
  replace_value value (child name cs []) = ok (child name cs (value ∷ []), true)
  replace_value value (child name cs (w ∷ values)) = ok (child name cs (value ∷ []), false)

  -- A node that does not hold exactly one value is `unreachable!`.
  unfoldable pub remove_topic : Node V → Result (Node V × Bool)
  remove_topic (child name cs (w ∷ [])) = ok (child name cs [], false)
  remove_topic _ = panic

  -- (root, first)
  unfoldable pub set : List Str → V → Node V → Result (Node V × Bool)
  set [] value node = replace_value value node
  set (in_level ∷ in_levels) value node = elim (search_level in_level (children node)) [
    | found off ↦ elim (remove_at off (children node)) [
      | none ↦ panic
      | some (c, rest) ↦ do
        (c', first) ← set in_levels value c
        ok (with_children node (insert_at off c' rest), first)
    ]
    | absent off ↦ do
      (c', first) ← set in_levels value (new_node in_level)
      ok (with_children node (insert_at off c' (children node)), first)
  ]

  -- (root, missing)
  unfoldable pub remove : List Str → Node V → Result (Option (Node V) × Bool)
  remove [] node = do (node', missing) ← remove_topic node; ok (prune node', missing)
  remove (in_level ∷ inl) node = elim (search_level in_level (children node)) [
    | absent off ↦ ok (some node, true)
    | found off ↦ elim (remove_at off (children node)) [
      | none ↦ panic
      | some (c, rest) ↦ do
        (c', missing) ← remove inl c
        ok (
          elim c' [
            | some c' ↦ some (with_children node (insert_at off c' rest))
            | none ↦
                if is_root node
                then some (with_children node rest)
                else prune (with_children node rest)
          ],
          missing,
        )
    ]
  ]
