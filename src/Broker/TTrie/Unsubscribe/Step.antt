-- ===== src/Broker/TTrie/Unsubscribe/Step.antt =====
-- `unsub` through the children.
use mymq.Base.{
  ℕ, Bool, false, List, [], ◌∷◌, ◌++◌, Option, none, some, ◌≡◌, ◌≢◌, refl, sym, ◌∙◌, inl, inr,
  arith, length, of_some,
}
use mymq.Error.{ok}
use mymq.Types.Utf8.{Str}
use mymq.Types.StrOrd.{cmp, eq_or_ne}
use mymq.Broker.TTrie.{Node, Value, children, with_children, as_name, is_root, search_level, unsub}
use mymq.Broker.TTrie.Vec.{Search, found, absent, remove_at, insert_at}
use mymq.Broker.TTrie.Vec.Laws.{
  Outcome, binary_search_by-Outcome, remove_at-middle, insert_at-middle,
}
use mymq.Broker.TTrie.Path.{
  values_at, IsTrie, IsBranch, values_at-of_find, is_root-with_children, as_name-with_children,
  values_at-with_children_nil,
}
use mymq.Broker.TTrie.Path.Place.{
  Place, Hit-Place, Miss-Place, put-IsTrie, values_at-put_self, values_at-put_ne, drop-IsTrie,
  values_at-drop_self, values_at-drop_ne,
}
use mymq.Broker.TTrie.Path.Values.{IsOrdered}
use mathlib.Core.Path.{subst}
use mymq.Broker.TTrie.Unsubscribe.Here.{unsub_here}
use mymq.Broker.TTrie.Unsubscribe.{put_back, opt_values_at-put_back, put_back-some, Unsubscribed}

module _ {ℓ} {V : Type ℓ} ⦃o : Value V⦄ (l : IsOrdered o) where
  unsub_found :
      (level : Str) (path : List Str) (v : V) (t c : Node V) (before behind : List (Node V))
      (off : ℕ) (c' : Option (Node V)) (last missing : Bool)
      → search_level level (children t) ≡ found off
      → children t ≡ before ++ (c ∷ behind)
      → length before ≡ off
      → unsub path v c ≡ ok (c', last, missing)
      → unsub (level ∷ path) v t ≡ ok (put_back t before behind c', last, missing)
  unfolding unsub
  unsub_found level path v t c before behind off none last missing e whole size run =
      let gone : remove_at off (children t) ≡ some (c, before ++ behind) =
        rw (whole, ← size) (remove_at-middle before c behind) in
      ground arith
  unsub_found level path v t c before behind off (some c') last missing e whole size run =
      let gone : remove_at off (children t) ≡ some (c, before ++ behind) =
        rw (whole, ← size) (remove_at-middle before c behind) in
      let back : insert_at off c' (before ++ behind) ≡ before ++ (c' ∷ behind) =
        rw (← size) (insert_at-middle before c' behind) in
      ground arith

  unsub_below :
      (level : Str) (path : List Str) (v : V) (t c : Node V) (before behind : List (Node V))
      (off : ℕ)
      → IsTrie t
      → Place t level before behind
      → (s : Unsubscribed path v c) → is_root c ≡ false
      → as_name c ≡ level
      → ((p : List Str) → values_at (level ∷ p) t ≡ values_at p c)
      → (r : Option (Node V)) → s.after ≡ r
      → unsub (level ∷ path) v t ≡ ok (put_back t before behind r, s.last, s.missing)
      → Unsubscribed (level ∷ path) v t
  unsub_below level path v t c before behind off ht place s hr hn same none e run =
      let n = with_children t (before ++ behind) in
      record {
        after = put_back t before behind none;
        last = s.last;
        missing = s.missing;
        run = run;
        intact = λ m q. rw (← put_back-some t before behind m q) (
          drop-IsTrie t level before behind ht place,
          is_root-with_children t (before ++ behind),
          as_name-with_children t (before ++ behind),
        );
        root_stays = λ q. (n, rw q);
        here =
            opt_values_at-put_back t before behind (level ∷ path)
            ∙ values_at-drop_self t level before behind ht place path
            ∙ (rw e at s.here)
            ∙ rw (same path);
        elsewhere = λ p ne. opt_values_at-put_back t before behind p ∙ elsewhere p ne;
        was_last = rw (same path) s.was_last;
        was_missing = rw (same path) s.was_missing;
      }
    where
      elsewhere :
          (p : List Str)
          → p ≢ level ∷ path
          → values_at p (with_children t (before ++ behind)) ≡ values_at p t
      elsewhere [] ne = values_at-with_children_nil t (before ++ behind)
      elsewhere (m ∷ p) ne = elim (eq_or_ne m level) [
        | inl q ↦ rw q (
            values_at-drop_self t level before behind ht place p
            ∙ (rw e at (s.elsewhere p (λ z. ne (rw (q, z)))))
            ∙ sym (same p))
        | inr q ↦ values_at-drop_ne t level before behind ht place m p q
      ]
  unsub_below level path v t c before behind off ht place s hr hn same (some c') e run =
      let n = with_children t (before ++ (c' ∷ behind)) in
      record {
        after = some n;
        last = s.last;
        missing = s.missing;
        run = run;
        intact = λ m q.
            subst (λ x. IsTrie x × (is_root x ≡ is_root t) × (as_name x ≡ as_name t)) (of_some q)
              (
                put-IsTrie t level before behind c' ht place branch named,
                is_root-with_children t (before ++ (c' ∷ behind)),
                as_name-with_children t (before ++ (c' ∷ behind)),
              );
        root_stays = λ q. (n, refl);
        here =
            values_at-put_self t level before behind c' ht place branch named path
            ∙ (rw e at s.here)
            ∙ rw (same path);
        elsewhere = elsewhere;
        was_last = rw (same path) s.was_last;
        was_missing = rw (same path) s.was_missing;
      }
    where
      branch : IsBranch c'
      branch = let (trie, kind, _) = s.intact c' e in (kind ∙ hr, trie)

      named : as_name c' ≡ level
      named = let (_, _, name) = s.intact c' e in name ∙ hn

      elsewhere :
          (p : List Str)
          → p ≢ level ∷ path
          → values_at p (with_children t (before ++ (c' ∷ behind))) ≡ values_at p t
      elsewhere [] ne = values_at-with_children_nil t (before ++ (c' ∷ behind))
      elsewhere (m ∷ p) ne = elim (eq_or_ne m level) [
        | inl q ↦ rw q (
            values_at-put_self t level before behind c' ht place branch named p
            ∙ (rw e at (s.elsewhere p (λ z. ne (rw (q, z)))))
            ∙ sym (same p))
        | inr q ↦ values_at-put_ne t level before behind c' ht place branch named m p q
      ]

  unsub_step :
      (level : Str) (path : List Str) (v : V) (t : Node V) (r : Search)
      → IsTrie t
      → values_at (level ∷ path) t ≢ []
      → search_level level (children t) ≡ r
      → Outcome (λ n. cmp (as_name n) level) (children t) r
      → ((c : Node V)
          → IsTrie c
          → is_root c ≡ false
          → values_at path c ≢ []
          → Unsubscribed path v c)
      → Unsubscribed (level ∷ path) v t
  unsub_step level path v t (found off) ht ne e h rec =
      let (place, (hr, hc), hn, here) = Hit-Place t level off ht h in
      let same : (p : List Str) → values_at (level ∷ p) t ≡ values_at p h.item =
        λ p. values_at-of_find level p t (some h.item) here in
      let s = rec h.item hc hr (λ z. ne (same path ∙ z)) in
      unsub_below level path v t h.item h.before h.behind off ht place s hr hn same s.after refl (
        unsub_found level path v t h.item h.before h.behind off s.after s.last s.missing e h.whole
          h.size s.run)
  unsub_step level path v t (absent off) ht ne e h rec =
      let (place, here) = Miss-Place t level off ht h in
      absurd (ne (values_at-of_find level path t none here))

  unsub-Unsubscribed-child :
      (path : List Str) (v : V) (t : Node V)
      → IsTrie t
      → is_root t ≡ false
      → values_at path t ≢ []
      → Unsubscribed path v t
  unsub-Unsubscribed-child [] v t ht hr ne = unsub_here l v t ht hr ne
  unsub-Unsubscribed-child (level ∷ path) v t ht hr ne =
      let f = λ (n : Node V). cmp (as_name n) level in
      unsub_step level path v t (search_level level (children t)) ht ne refl
        (unfold search_level in binary_search_by-Outcome f (children t))
        (unsub-Unsubscribed-child path v)

  -- In a well-formed trie, on a path that holds values, `unsub` succeeds. What it takes from the
  -- path is what `removed` says; the values of every other path stay. What is left is well formed,
  -- and a root stays.
  pub unsub-Unsubscribed :
      (level : Str) (path : List Str) (v : V) (t : Node V)
      → IsTrie t
      → values_at (level ∷ path) t ≢ []
      → Unsubscribed (level ∷ path) v t
  unsub-Unsubscribed level path v t ht ne =
      let f = λ (n : Node V). cmp (as_name n) level in
      unsub_step level path v t (search_level level (children t)) ht ne refl
        (unfold search_level in binary_search_by-Outcome f (children t))
        (unsub-Unsubscribed-child path v)
