-- ===== src/Broker/TTrie/Unsubscribe/Here.antt =====
-- `remove_value`, and `unsub` where the path ends.
use mymq.Base.{Bool, false, not, List, [], ◌∷◌, some, ◌≡◌, ◌≢◌, refl, ◌∙◌, arith}
use mymq.Error.{ok}
use mymq.Types.Utf8.{Str}
use mymq.Broker.TTrie.{
  Node, root, child, Nodes, Value, as_name, is_root, prune, search_value, remove_value, unsub,
}
use mymq.Broker.TTrie.Match.{values_of}
use mymq.Broker.TTrie.Vec.{Search, found, absent}
use mymq.Broker.TTrie.Path.{values_at, IsTrie, child-IsTrie, values-SortedValues, same_children}
use mymq.Broker.TTrie.Path.Values.{
  IsOrdered, SortedValues, del_value, holds, deleted, deleted-del_value, del_value-SortedValues,
}
use mymq.Broker.TTrie.Unsubscribe.{opt_values_at-prune, prune-some, Unsubscribed, removed}

module _ {ℓ} {V : Type ℓ} ⦃o : Value V⦄ (l : IsOrdered o) where
  remove_value-deleted :
      (v w x : V) (name : Str) (cs : Nodes V) (values : List V) (r : Search)
      → search_value v (w ∷ x ∷ values) ≡ r
      → (rest : List V) (missing : Bool) → deleted v (w ∷ x ∷ values) r ≡ (some rest, missing)
      → remove_value v (child name cs (w ∷ x ∷ values)) ≡ ok (child name cs rest, false, missing)
  unfolding remove_value
  remove_value-deleted v w x name cs values (found off) e rest missing d = ground arith
  remove_value-deleted v w x name cs values (absent off) e rest missing d = ground arith

  -- `remove_value` on a node that has values.
  remove_value-removed :
      (v : V) (name : Str) (cs : Nodes V) (w : V) (values : List V)
      → let old = w ∷ values in
        remove_value v (child name cs old)
        ≡ ok (child name cs (removed v old).0, (removed v old).1, (removed v old).2)
  remove_value-removed v name cs w [] = unfold remove_value removed in ground arith
  remove_value-removed v name cs w (x ∷ values) =
      let old = w ∷ x ∷ values in
      unfold removed in
      remove_value-deleted v w x name cs values (search_value v old) refl (del_value v old)
        (not (holds v old)) (deleted-del_value v old)

  removed-SortedValues :
      (v : V) (values : List V) → SortedValues values → SortedValues (removed v values).0
  unfolding removed
  removed-SortedValues v [] h = tt
  removed-SortedValues v (w ∷ []) h = ground arith
  removed-SortedValues v (w ∷ x ∷ values) h = del_value-SortedValues l v (w ∷ x ∷ values) h

  pub unsub_here :
      (v : V) (t : Node V)
      → IsTrie t
      → is_root t ≡ false
      → values_at [] t ≢ []
      → Unsubscribed [] v t
  unfolding unsub is_root values_at values_of as_name
  unsub_here v (root cs) ht e ne = cc
  unsub_here v (child name cs []) ht e ne = absurd (ne refl)
  unsub_here v (child name cs (w ∷ values)) ht e ne =
      let old = w ∷ values in
      let n = child name cs (removed v old).0 in
      record {
        after = prune n;
        last = (removed v old).1;
        missing = (removed v old).2;
        run = rw (remove_value-removed v name cs w values);
        intact = λ m q.
            let same : n ≡ m = prune-some n m q in
            let whole =
              child-IsTrie name cs old (removed v old).0
                (removed-SortedValues v old (values-SortedValues name cs old ht)) ht in
            rw (← same) (whole, refl, refl);
        root_stays = λ q. cc;
        here = opt_values_at-prune n [];
        elsewhere =
            λ p q. opt_values_at-prune n p ∙ same_children name cs old (removed v old).0 p q;
        was_last = refl;
        was_missing = refl;
      }
