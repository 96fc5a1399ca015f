-- ===== src/Broker/TTrie/Path/Place.antt =====
-- The place of a name among the children of a node: what changes there changes nothing elsewhere.
use Prim.Native.Nat.Ordering.{lt}
use mymq.Base.{ℕ, List, [], ◌∷◌, ◌++◌, none, some, ◌≡◌, ◌≢◌, sym, ◌∙◌, All, All-middle, All-insert}
use mathlib.Core.Path.{subst}
use mymq.Types.Utf8.{Str}
use mymq.Types.StrOrd.{cmp, eq_of_cmp}
use mymq.Broker.TTrie.{Node, Value, children, with_children, as_name}
use mymq.Broker.TTrie.Vec.Laws.{Hit, Miss}
use mymq.Broker.TTrie.Path.{
  values_at, values_at-of_find, IsTrie, IsTrie-parts, IsBranch, with_children-IsTrie,
  children-with_children,
}
use mymq.Broker.TTrie.Path.Names.{
  Sorted, find, find-middle_self, find-middle_ne, Miss-above, Sorted-middle, Sorted-insert,
  find-without,
}

module _ {ℓ} {V : Type ℓ} ⦃o : Value V⦄ where
  pub record Place (t : Node V) (name : Str) (before behind : List (Node V)) : Type ℓ where
    pub below : All (λ x. cmp (as_name x) name ≡ lt) before
    pub above : All (λ x. cmp name (as_name x) ≡ lt) behind
    pub sorted : Sorted (before ++ behind)
    pub branches : All IsBranch (before ++ behind)
    pub others : (m : Str) → m ≢ name → find m (children t) ≡ find m (before ++ behind)
    pub gone : find name (before ++ behind) ≡ none

  pub Hit-Place :
      (t : Node V) (name : Str) (off : ℕ)
      → IsTrie t
      → (h : Hit (λ n. cmp (as_name n) name) (children t) off)
      → Place t name h.before h.behind
        × IsBranch h.item
        × (as_name h.item ≡ name)
        × (find name (children t) ≡ some h.item)
  Hit-Place t name off ht h =
      let (_, sorted, branches) = IsTrie-parts t ht in
      let s : Sorted (h.before ++ (h.item ∷ h.behind)) = rw h.whole at sorted in
      let (branch, rest) = All-middle IsBranch h.before h.item h.behind (rw h.whole at branches) in
      let (below, above, sorted') = Sorted-middle h.before h.item h.behind s in
      let e : as_name h.item ≡ name = eq_of_cmp (as_name h.item) name h.same in
      (
        record {
          below = h.less;
          above = subst (λ n. All (λ x. cmp n (as_name x) ≡ lt) h.behind) e above;
          sorted = sorted';
          branches = rest;
          others = λ m ne.
              rw h.whole (find-middle_ne m h.before h.item h.behind (λ p. ne (sym (rw e at p))));
          gone = rw e at (find-without h.before h.item h.behind s);
        },
        branch,
        e,
        rw h.whole (find-middle_self name h.before h.item h.behind h.less e),
      )

  pub Miss-Place :
      (t : Node V) (name : Str) (off : ℕ)
      → IsTrie t
      → (h : Miss (λ n. cmp (as_name n) name) (children t) off)
      → Place t name h.before h.behind × (find name (children t) ≡ none)
  Miss-Place t name off ht h =
      let (_, sorted, branches) = IsTrie-parts t ht in
      let (above, none_found) = Miss-above name (children t) off sorted h in
      (
        record {
          below = h.less;
          above = above;
          sorted = rw h.whole at sorted;
          branches = rw h.whole at branches;
          others = λ m ne. rw h.whole;
          gone = rw h.whole at none_found;
        },
        none_found,
      )

  -- Putting a child into its place.
  module _ (t : Node V) (name : Str) (before behind : List (Node V)) (c : Node V) (ht : IsTrie t)
      (p : Place t name before behind) (hc : IsBranch c) (e : as_name c ≡ name) where
    pub put-IsTrie : IsTrie (with_children t (before ++ (c ∷ behind)))
    put-IsTrie =
        with_children-IsTrie t (before ++ (c ∷ behind)) (IsTrie-parts t ht).0
          (Sorted-insert before c behind
            (subst (λ n. All (λ x. cmp (as_name x) n ≡ lt) before) (sym e) p.below)
            (subst (λ n. All (λ x. cmp n (as_name x) ≡ lt) behind) (sym e) p.above) p.sorted)
          (All-insert IsBranch before c behind hc p.branches)

    pub values_at-put_self :
        (path : List Str)
        → values_at (name ∷ path) (with_children t (before ++ (c ∷ behind))) ≡ values_at path c
    values_at-put_self path =
        values_at-of_find name path (with_children t (before ++ (c ∷ behind))) (some c)
          (rw children-with_children (find-middle_self name before c behind p.below e))

    pub values_at-put_ne :
        (m : Str) (path : List Str)
        → m ≢ name
        → values_at (m ∷ path) (with_children t (before ++ (c ∷ behind))) ≡ values_at (m ∷ path) t
    values_at-put_ne m path ne =
        values_at-of_find m path (with_children t (before ++ (c ∷ behind)))
          (find m (before ++ behind))
          (rw children-with_children (find-middle_ne m before c behind (λ q. ne (sym q ∙ e))))
        ∙ sym (values_at-of_find m path t (find m (before ++ behind)) (p.others m ne))

  -- Taking the child of a place away.
  module _ (t : Node V) (name : Str) (before behind : List (Node V)) (ht : IsTrie t)
      (p : Place t name before behind) where
    pub drop-IsTrie : IsTrie (with_children t (before ++ behind))
    drop-IsTrie =
        with_children-IsTrie t (before ++ behind) (IsTrie-parts t ht).0 p.sorted p.branches

    pub values_at-drop_self :
        (path : List Str) → values_at (name ∷ path) (with_children t (before ++ behind)) ≡ []
    values_at-drop_self path =
        values_at-of_find name path (with_children t (before ++ behind)) none
          (rw children-with_children p.gone)

    pub values_at-drop_ne :
        (m : Str) (path : List Str)
        → m ≢ name
        → values_at (m ∷ path) (with_children t (before ++ behind)) ≡ values_at (m ∷ path) t
    values_at-drop_ne m path ne =
        values_at-of_find m path (with_children t (before ++ behind)) (find m (before ++ behind))
          (rw children-with_children)
        ∙ sym (values_at-of_find m path t (find m (before ++ behind)) (p.others m ne))
