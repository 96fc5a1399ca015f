-- ===== src/Broker/Tries/Delivery.antt =====
-- Whom `SubscribedTrie` finds for a topic name.
use mymq.Base.{
  ℕ, Bool, true, false, ◌||◌, List, [], ◌∷◌, ◌≡◌, ◌≢◌, ◌↔◌, refl, if◌then◌else◌, ◌==◌, arith, All,
}
use mymq.Error.{ok}
use mymq.Types.Utf8.{Str}
use mymq.Types.Topic.{iter_topic_path, push_front, validate_name, any}
use mymq.Broker.TTrie.{Value}
use mymq.Broker.TTrie.Match.{match_topic, or_empty, multi, single}
use mymq.Broker.TTrie.Match.Filters.{Matches, Plain, In}
use mymq.Broker.TTrie.Match.Level.{Allowed}
use mymq.Broker.TTrie.Match.Spec.{match_topic_lem}
use mymq.Broker.Tries.{Inner, match_topic_name}
use mymq.Broker.Tries.Registry.{Registry}
use mymq.Broker.Tries.Subscribed.{Holds, iter_topic_path-cons}

-- No level of a topic name has a character that the name does not have.
any-levels :
    (p : ℕ → Bool) (s : Str) → any p s ≡ false → All (λ l. any p l ≡ false) (iter_topic_path s)
unfolding any iter_topic_path
any-levels p [] h = (refl, tt)
any-levels p (c ∷ s) h =
    let parts : (p c ≡ false) × (any p s ≡ false) = ground arith in
    go (iter_topic_path s) (c == b'/') parts.0 (any-levels p s parts.1)
  where
    go :
        (rest : List Str) (b : Bool)
        → p c ≡ false
        → All (λ l. any p l ≡ false) rest
        → All (λ l. any p l ≡ false) (if b then [] ∷ rest else push_front c rest)
    go rest true e al = (refl, al)
    go [] false e al = (rw e refl, tt)
    go (l ∷ ls) false e al = (rw e al.0, al.1)

All-Plain :
    (levels : List Str)
    → All (λ l. any (λ c. c == b'#' || c == b'+' || c == 0) l ≡ false) levels
    → All Plain levels
All-Plain [] al = tt
All-Plain (l ∷ ls) al = (
  (λ e. clash multi (unfold any in refl) e, λ e. clash single (unfold any in refl) e),
  All-Plain ls al.1,
)
  where
    clash : (m : Str) → any (λ c. c == b'#' || c == b'+' || c == 0) m ≡ true → l ≢ m
    clash m t e = let r : any (λ c. c == b'#' || c == b'+' || c == 0) l ≡ true = rw e t in cc

-- A valid topic name has no wildcard among its levels.
pub validate_name-Plain : (s : Str) → validate_name s ≡ ok tt → All Plain (iter_topic_path s)
unfolding validate_name
validate_name-Plain s h =
    All-Plain (iter_topic_path s)
      (any-levels (λ c. c == b'#' || c == b'+' || c == 0) s (ground arith))

module _ {ℓ} {V : Type ℓ} ⦃o : Value V⦄ where
  match_topic_name-found :
      (key : Str) (inner : Inner V)
      → (match_topic_name key inner).0
        ≡ or_empty (match_topic (iter_topic_path key) true inner.root)
  unfolding match_topic_name
  match_topic_name-found key inner = ground arith

  -- For a valid topic name, a trie that holds a registry finds exactly the values that are
  -- registered under a filter that matches the name and whose first level is no wildcard.
  pub delivery :
      (name : Str) (inner : Inner V) (f : Registry V) (v : V)
      → Holds inner f
      → validate_name name ≡ ok tt
      → In v (match_topic_name name inner).0
        ↔ ((fs : List Str) × Matches (iter_topic_path name) fs × Allowed true true fs × In v (f fs))
  delivery name inner f v h valid =
      let (level, levels, e) = iter_topic_path-cons name in
      let plain = rw e at (validate_name-Plain name valid) in
      let (sound, complete) = match_topic_lem level levels true v inner.root h.trie plain in
      rw (match_topic_name-found name inner, e)
        (
          λ i. let (fs, m, al, k) = sound i in (fs, m, rw h.rooted at al, rw h.same at k),
          λ (fs, m, al, k). complete (fs, m, rw h.rooted al, rw h.same k),
        )
