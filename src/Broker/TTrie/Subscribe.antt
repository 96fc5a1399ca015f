-- ===== src/Broker/TTrie/Subscribe.antt =====
-- `sub`: what a subscription changes.
use mymq.Base.{
  ℕ, Bool, true, false, List, [], ◌∷◌, ◌++◌, none, some, ◌≡◌, ◌≢◌, refl, sym, ◌∙◌, inl, inr, arith,
  length,
}
use mymq.Error.{ok}
use mymq.Types.Utf8.{Str}
use mymq.Types.StrOrd.{cmp, eq_or_ne}
use mymq.Broker.TTrie.{
  Node, root, child, Nodes, Value, children, with_children, as_name, is_root, new_node,
  search_level, search_value, insert_value, sub,
}
use mymq.Broker.TTrie.Match.{values_of}
use mymq.Broker.TTrie.Vec.{Search, found, absent, remove_at, insert_at}
use mymq.Broker.TTrie.Vec.Laws.{
  Outcome, binary_search_by-Outcome, remove_at-middle, insert_at-middle,
}
use mymq.Broker.TTrie.Path.{
  values_at, IsTrie, IsBranch, values_at-new_node, values_at-of_find, is_root-with_children,
  as_name-with_children, values_at-with_children_nil, child-IsTrie, values-SortedValues,
  new_node-IsTrie, same_children,
}
use mymq.Broker.TTrie.Path.Place.{
  Place, Hit-Place, Miss-Place, put-IsTrie, values_at-put_self, values_at-put_ne,
}
use mymq.Broker.TTrie.Path.Values.{
  IsOrdered, add_value, holds, added, added-add_value, add_value-SortedValues,
}

abbrev pub is_nil {ℓ} : {A : Type ℓ} → List A → Bool
is_nil [] = true
is_nil (x ∷ xs) = false

module _ {ℓ} {V : Type ℓ} ⦃o : Value V⦄ where
  pub record Subscribed (path : List Str) (v : V) (t : Node V) : Type ℓ where
    pub after : Node V
    pub first : Bool
    pub repeat : Bool
    pub run : sub path v t ≡ ok (after, first, repeat)
    pub trie : IsTrie after
    pub kind : is_root after ≡ is_root t
    pub name : as_name after ≡ as_name t
    pub here : values_at path after ≡ add_value v (values_at path t)
    pub elsewhere : (p : List Str) → p ≢ path → values_at p after ≡ values_at p t
    pub was_first : first ≡ is_nil (values_at path t)
    pub was_repeat : repeat ≡ holds v (values_at path t)

module _ {ℓ} {V : Type ℓ} ⦃o : Value V⦄ (l : IsOrdered o) where
  insert_value-added :
      (v w : V) (name : Str) (cs : Nodes V) (values : List V) (r : Search)
      → search_value v (w ∷ values) ≡ r
      → insert_value v (child name cs (w ∷ values))
        ≡ ok (child name cs (added v (w ∷ values) r).0, false, (added v (w ∷ values) r).1)
  unfolding insert_value
  insert_value-added v w name cs values (found off) e = rw (insert_value, e)
  insert_value-added v w name cs values (absent off) e = rw (insert_value, e)

  sub_here : (v : V) (t : Node V) → IsTrie t → is_root t ≡ false → Subscribed [] v t
  unfolding sub is_root values_at values_of as_name
  sub_here v (root cs) ht e = cc
  sub_here v (child name cs []) ht e = record {
    after = child name cs (v ∷ []);
    first = true;
    repeat = false;
    run = unfold insert_value in refl;
    trie = child-IsTrie name cs [] (v ∷ []) (tt, tt) ht;
    kind = refl;
    name = refl;
    here = unfold add_value in refl;
    elsewhere = same_children name cs [] (v ∷ []);
    was_first = refl;
    was_repeat = unfold holds in refl;
  }
  sub_here v (child name cs (w ∷ values)) ht e =
      let sorted =
        add_value-SortedValues l v (w ∷ values) (values-SortedValues name cs (w ∷ values) ht) in
      record {
        after = child name cs (add_value v (w ∷ values));
        first = false;
        repeat = holds v (w ∷ values);
        run =
            insert_value-added v w name cs values (search_value v (w ∷ values)) refl
            ∙ rw (added-add_value v (w ∷ values));
        trie = child-IsTrie name cs (w ∷ values) (add_value v (w ∷ values)) sorted ht;
        kind = refl;
        name = refl;
        here = refl;
        elsewhere = same_children name cs (w ∷ values) (add_value v (w ∷ values));
        was_first = refl;
        was_repeat = refl;
      }

  -- A child put back into its place: the node's own record from the child's.
  sub_below :
      (level : Str) (path : List Str) (v : V) (t c : Node V) (before behind : List (Node V))
      → IsTrie t
      → Place t level before behind
      → (s : Subscribed path v c) → is_root c ≡ false
      → as_name c ≡ level
      → ((p : List Str) → values_at (level ∷ p) t ≡ values_at p c)
      → sub (level ∷ path) v t
        ≡ ok (with_children t (before ++ (s.after ∷ behind)), s.first, s.repeat)
      → Subscribed (level ∷ path) v t
  sub_below level path v t c before behind ht place s hr hn same run = record {
    after = with_children t (before ++ (s.after ∷ behind));
    first = s.first;
    repeat = s.repeat;
    run = run;
    trie = put-IsTrie t level before behind s.after ht place branch e;
    kind = is_root-with_children t (before ++ (s.after ∷ behind));
    name = as_name-with_children t (before ++ (s.after ∷ behind));
    here =
        values_at-put_self t level before behind s.after ht place branch e path
        ∙ s.here
        ∙ rw (same path);
    elsewhere = elsewhere;
    was_first = rw (same path) s.was_first;
    was_repeat = rw (same path) s.was_repeat;
  }
    where
      branch : IsBranch s.after
      branch = (s.kind ∙ hr, s.trie)

      e : as_name s.after ≡ level
      e = s.name ∙ hn

      elsewhere :
          (p : List Str)
          → p ≢ level ∷ path
          → values_at p (with_children t (before ++ (s.after ∷ behind))) ≡ values_at p t
      elsewhere [] ne = values_at-with_children_nil t (before ++ (s.after ∷ behind))
      elsewhere (m ∷ p) ne = elim (eq_or_ne m level) [
        | inl q ↦ rw q (
            values_at-put_self t level before behind s.after ht place branch e p
            ∙ s.elsewhere p (λ z. ne (rw (q, z)))
            ∙ sym (same p))
        | inr q ↦ values_at-put_ne t level before behind s.after ht place branch e m p q
      ]

  sub_found :
      (level : Str) (path : List Str) (v : V) (t c c' : Node V) (before behind : List (Node V))
      (off : ℕ) (first repeat : Bool)
      → search_level level (children t) ≡ found off
      → children t ≡ before ++ (c ∷ behind)
      → length before ≡ off
      → sub path v c ≡ ok (c', first, repeat)
      → sub (level ∷ path) v t ≡ ok (with_children t (before ++ (c' ∷ behind)), first, repeat)
  unfolding sub
  sub_found level path v t c c' before behind off first repeat e whole size run =
      let gone : remove_at off (children t) ≡ some (c, before ++ behind) =
        rw (whole, ← size) (remove_at-middle before c behind) in
      let back : insert_at off c' (before ++ behind) ≡ before ++ (c' ∷ behind) =
        rw (← size) (insert_at-middle before c' behind) in
      ground arith

  sub_absent :
      (level : Str) (path : List Str) (v : V) (t c' : Node V) (before behind : List (Node V))
      (off : ℕ) (first repeat : Bool)
      → search_level level (children t) ≡ absent off
      → children t ≡ before ++ behind
      → length before ≡ off
      → sub path v (new_node level) ≡ ok (c', first, repeat)
      → sub (level ∷ path) v t ≡ ok (with_children t (before ++ (c' ∷ behind)), first, repeat)
  unfolding sub
  sub_absent level path v t c' before behind off first repeat e whole size run =
      let back : insert_at off c' (children t) ≡ before ++ (c' ∷ behind) =
        rw (whole, ← size) (insert_at-middle before c' behind) in
      ground arith

  -- The step of `sub`, by the outcome of the search.
  sub_step :
      (level : Str) (path : List Str) (v : V) (t : Node V) (r : Search)
      → IsTrie t
      → search_level level (children t) ≡ r
      → Outcome (λ n. cmp (as_name n) level) (children t) r
      → ((c : Node V) → IsTrie c → is_root c ≡ false → Subscribed path v c)
      → Subscribed (level ∷ path) v t
  sub_step level path v t (found off) ht e h rec =
      let (place, (hr, hc), hn, here) = Hit-Place t level off ht h in
      let s = rec h.item hc hr in
      sub_below level path v t h.item h.before h.behind ht place s hr hn
        (λ p. values_at-of_find level p t (some h.item) here)
        (sub_found level path v t h.item s.after h.before h.behind off s.first s.repeat e h.whole
          h.size s.run)
  sub_step level path v t (absent off) ht e h rec =
      let (place, here) = Miss-Place t level off ht h in
      let branch : is_root (new_node {V = V} level) ≡ false = unfold is_root new_node in refl in
      let named : as_name (new_node {V = V} level) ≡ level = unfold as_name new_node in refl in
      let s = rec (new_node level) (new_node-IsTrie V level) branch in
      sub_below level path v t (new_node level) h.before h.behind ht place s branch named
        (λ p. values_at-of_find level p t none here ∙ sym (values_at-new_node level p))
        (sub_absent level path v t s.after h.before h.behind off s.first s.repeat e h.whole h.size
          s.run)

  sub-Subscribed-child :
      (path : List Str) (v : V) (t : Node V) → IsTrie t → is_root t ≡ false → Subscribed path v t
  sub-Subscribed-child [] v t ht hr = sub_here v t ht hr
  sub-Subscribed-child (level ∷ path) v t ht hr =
      let f = λ (n : Node V). cmp (as_name n) level in
      sub_step level path v t (search_level level (children t)) ht refl
        (unfold search_level in binary_search_by-Outcome f (children t))
        (sub-Subscribed-child path v)

  -- In a well-formed trie `sub` succeeds on every path with a level, the trie stays well formed, the
  -- value is added to the sorted values of that path, unless one equal in the order is there, and
  -- those of every other path stay. The flags say whether the path had no value, and whether it had
  -- one equal to the new one.
  pub sub-Subscribed :
      (level : Str) (path : List Str) (v : V) (t : Node V)
      → IsTrie t
      → Subscribed (level ∷ path) v t
  sub-Subscribed level path v t ht =
      let f = λ (n : Node V). cmp (as_name n) level in
      sub_step level path v t (search_level level (children t)) ht refl
        (unfold search_level in binary_search_by-Outcome f (children t))
        (sub-Subscribed-child path v)
