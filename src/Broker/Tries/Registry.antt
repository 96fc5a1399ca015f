-- ===== src/Broker/Tries/Registry.antt =====
-- What the trie of subscriptions stands for: the subscriptions under each path, as a function.
use mymq.Base.{Bool, true, false, ◌&&◌, List, [], ◌∷◌, ◌≡◌, ◌≢◌, refl, if◌then◌else◌, arith}
use mymq.Types.Utf8.{Str}
use mymq.Types.StrOrd
use mymq.Types.Topic.{iter_topic_path}
use mymq.Broker.TTrie.{Value}
use mymq.Broker.TTrie.Match.{compare_level}
use mymq.Broker.TTrie.Path.Values.{add_value}
use mymq.Broker.TTrie.Unsubscribe.{removed}

unfoldable pub path_eq : List Str → List Str → Bool
unfolding compare_level
path_eq [] [] = true
path_eq [] (q ∷ qs) = false
path_eq (p ∷ ps) [] = false
path_eq (p ∷ ps) (q ∷ qs) = compare_level p q && path_eq ps qs

pub path_eq_refl : (p : List Str) → path_eq p p ≡ true
unfolding path_eq
path_eq_refl [] = refl
path_eq_refl (p ∷ ps) = ground (arith, StrOrd.cmp_refl p, path_eq_refl ps)

pub eq_of_path_eq : (p q : List Str) → path_eq p q ≡ true → p ≡ q
unfolding path_eq
eq_of_path_eq [] [] h = refl
eq_of_path_eq [] (q ∷ qs) h = cc
eq_of_path_eq (p ∷ ps) [] h = cc
eq_of_path_eq (p ∷ ps) (q ∷ qs) h = ground (arith, StrOrd.eq_of_cmp p q, eq_of_path_eq ps qs)

pub ne_of_path_eq : (p q : List Str) → path_eq p q ≡ false → p ≢ q
ne_of_path_eq p q h e = let r : path_eq p q ≡ true = rw e (path_eq_refl q) in cc

abbrev pub Registry {ℓ} : Type ℓ → Type ℓ
Registry V = List Str → List V

pub data Op {ℓ} (V : Type ℓ) : Type ℓ where
  subscribe : Str → V → Op V
  unsubscribe : Str → V → Op V
  match_name : Str → Op V

unfoldable pub update {ℓ} : {V : Type ℓ} → List Str → List V → Registry V → Registry V
unfolding path_eq
update path values f p = if path_eq p path then values else f p

module _ {ℓ} {V : Type ℓ} ⦃o : Value V⦄ where
  -- One operation, as the callers mean it.
  unfoldable pub apply : Op V → Registry V → Registry V
  unfolding update add_value removed
  apply (subscribe key v) f = update (iter_topic_path key) (add_value v (f (iter_topic_path key))) f
  apply (unsubscribe key v) f =
      update (iter_topic_path key) (removed v (f (iter_topic_path key))).0 f
  apply (match_name key) f = f

  unfoldable pub apply_all : List (Op V) → Registry V → Registry V
  unfolding apply
  apply_all [] f = f
  apply_all (op ∷ ops) f = apply_all ops (apply op f)

  -- Something is stored under each filter when it is unsubscribed from.
  abbrev pub Legal : Op V → Registry V → Type ℓ
  Legal (subscribe key v) f = Unit
  Legal (unsubscribe key v) f = f (iter_topic_path key) ≢ []
  Legal (match_name key) f = Unit

  unfoldable pub AllLegal : List (Op V) → Registry V → Type ℓ
  unfolding apply
  AllLegal [] f = Unit
  AllLegal (op ∷ ops) f = Legal op f × AllLegal ops (apply op f)
