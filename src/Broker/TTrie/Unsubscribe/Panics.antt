-- ===== src/Broker/TTrie/Unsubscribe/Panics.antt =====
-- `unsub` and `remove` where the path leads to a node that is there and holds no values.
use mymq.Base.{
  ℕ, List, [], ◌∷◌, ◌++◌, Option, none, some, ◌≡◌, refl, sym, ◌∙◌, arith, length, of_some,
}
use mymq.Error.{panic}
use mymq.Types.Utf8.{Str}
use mymq.Types.StrOrd.{cmp}
use mymq.Broker.TTrie.{
  Node, root, child, Value, children, as_name, search_level, remove_value, unsub,
}
use mymq.Broker.TTrie.Match.{values_of}
use mymq.Broker.TTrie.Vec.{Search, found, absent, remove_at}
use mymq.Broker.TTrie.Vec.Laws.{Outcome, binary_search_by-Outcome, remove_at-middle}
use mymq.Broker.TTrie.Path.{IsTrie}
use mymq.Broker.TTrie.Path.Names.{find}
use mymq.Broker.TTrie.Path.Place.{Hit-Place, Miss-Place}
use mymq.Broker.TTrie.{remove_topic, remove}

module _ {ℓ} {V : Type ℓ} where
  -- The node of a path.
  unfoldable pub node_at : List Str → Node V → Option (Node V)
  node_at [] node = some node
  node_at (level ∷ path) node = elim (find level (children node)) [
    | none ↦ none
    | some c ↦ node_at path c
  ]

  node_at-here : (t n : Node V) → node_at [] t ≡ some n → t ≡ n
  unfolding node_at
  node_at-here t n e = of_some e

  node_at-of_find :
      (m : Str) (path : List Str) (t c : Node V)
      → find m (children t) ≡ some c
      → node_at (m ∷ path) t ≡ node_at path c
  unfolding node_at
  node_at-of_find m path t c e = rw (e, node_at)

  node_at-none :
      (m : Str) (path : List Str) (t : Node V)
      → find m (children t) ≡ none
      → node_at (m ∷ path) t ≡ none
  unfolding node_at
  node_at-none m path t e = rw (e, node_at)

module _ {ℓ} {V : Type ℓ} ⦃o : Value V⦄ where
  unsub_panics_here : (v : V) (t : Node V) → values_of t ≡ [] → unsub [] v t ≡ panic
  unfolding unsub remove_value values_of
  unsub_panics_here v (root cs) e = refl
  unsub_panics_here v (child name cs []) e = refl
  unsub_panics_here v (child name cs (w ∷ values)) e = cc

  remove_panics_here : (t : Node V) → values_of t ≡ [] → remove [] t ≡ panic
  unfolding remove remove_topic values_of
  remove_panics_here (root cs) e = refl
  remove_panics_here (child name cs []) e = refl
  remove_panics_here (child name cs (w ∷ values)) e = cc

  unsub_panic_found :
      (level : Str) (path : List Str) (v : V) (t c : Node V) (before behind : List (Node V))
      (off : ℕ)
      → search_level level (children t) ≡ found off
      → children t ≡ before ++ (c ∷ behind)
      → length before ≡ off
      → (unsub path v c ≡ panic) × (remove path c ≡ panic)
      → (unsub (level ∷ path) v t ≡ panic) × (remove (level ∷ path) t ≡ panic)
  unfolding unsub remove
  unsub_panic_found level path v t c before behind off e whole size run =
      let gone : remove_at off (children t) ≡ some (c, before ++ behind) =
        rw (whole, ← size) (remove_at-middle before c behind) in
      (ground arith, ground arith)

  unsub_panic_step :
      (level : Str) (path : List Str) (v : V) (t n : Node V) (r : Search)
      → IsTrie t
      → node_at (level ∷ path) t ≡ some n
      → search_level level (children t) ≡ r
      → Outcome (λ n. cmp (as_name n) level) (children t) r
      → ((c : Node V)
          → IsTrie c
          → node_at path c ≡ some n
          → (unsub path v c ≡ panic) × (remove path c ≡ panic))
      → (unsub (level ∷ path) v t ≡ panic) × (remove (level ∷ path) t ≡ panic)
  unsub_panic_step level path v t n (found off) ht at e h rec =
      let (place, (hr, hc), hn, here) = Hit-Place t level off ht h in
      unsub_panic_found level path v t h.item h.before h.behind off e h.whole h.size
        (rec h.item hc (sym (node_at-of_find level path t h.item here) ∙ at))
  unsub_panic_step level path v t n (absent off) ht at e h rec =
      let (place, here) = Miss-Place t level off ht h in cc (at, node_at-none level path t here)

  -- Where a path leads to a node of the trie that holds no values, which only joins longer paths,
  -- both `unsub` and `remove` reach `unreachable!`, whatever the value.
  pub unsub_panics :
      (path : List Str) (v : V) (t n : Node V)
      → IsTrie t
      → node_at path t ≡ some n
      → values_of n ≡ []
      → (unsub path v t ≡ panic) × (remove path t ≡ panic)
  unsub_panics [] v t n ht at e =
      let same : t ≡ n = node_at-here t n at in
      let e' : values_of t ≡ [] = rw same e in (unsub_panics_here v t e', remove_panics_here t e')
  unsub_panics (level ∷ path) v t n ht at e =
      let f = λ (n : Node V). cmp (as_name n) level in
      unsub_panic_step level path v t n (search_level level (children t)) ht at refl
        (unfold search_level in binary_search_by-Outcome f (children t))
        (λ c hc q. unsub_panics path v c n hc q e)
