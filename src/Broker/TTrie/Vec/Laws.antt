-- ===== src/Broker/TTrie/Vec/Laws.antt =====
-- A binary search splits the vector; removal and insertion at its offset act on the split.
use Prim.Native.Nat.{Ordering}
use Prim.Native.Nat.Ordering.{lt, eq, gt}
use mymq.Base.{ℕ, suc, List, [], ◌∷◌, ◌++◌, some, ◌≡◌, refl, ap, All, length, ◌⊎◌, inl, inr}
use mymq.Broker.TTrie.Vec.{Search, shift, found, absent, binary_search_by, remove_at, insert_at}

module _ {ℓ} {A : Type ℓ} where
  pub record Hit (f : A → Ordering) (xs : List A) (off : ℕ) : Type ℓ where
    pub before : List A
    pub item : A
    pub behind : List A
    pub whole : xs ≡ before ++ (item ∷ behind)
    pub size : length before ≡ off
    pub less : All (λ x. f x ≡ lt) before
    pub same : f item ≡ eq

  pub record Miss (f : A → Ordering) (xs : List A) (off : ℕ) : Type ℓ where
    pub before : List A
    pub behind : List A
    pub whole : xs ≡ before ++ behind
    pub size : length before ≡ off
    pub less : All (λ x. f x ≡ lt) before
    pub next : (behind ≡ []) ⊎ ((x : A) × (rest : List A) × (behind ≡ x ∷ rest) × (f x ≡ gt))

  abbrev pub Outcome : (A → Ordering) → List A → Search → Type ℓ
  Outcome f xs (found off) = Hit f xs off
  Outcome f xs (absent off) = Miss f xs off

module _ {ℓ} {A : Type ℓ} where
  push :
      (f : A → Ordering) (x : A) (xs : List A) (r : Search)
      → f x ≡ lt
      → Outcome f xs r
      → Outcome f (x ∷ xs) (shift r)
  push f x xs (found off) e h = record {
    before = x ∷ h.before;
    item = h.item;
    behind = h.behind;
    whole = ap (λ l. x ∷ l) h.whole;
    size = ap suc h.size;
    less = (e, h.less);
    same = h.same;
  }
  push f x xs (absent off) e h = record {
    before = x ∷ h.before;
    behind = h.behind;
    whole = ap (λ l. x ∷ l) h.whole;
    size = ap suc h.size;
    less = (e, h.less);
    next = h.next;
  }

  pub binary_search_by-Outcome :
      (f : A → Ordering) (xs : List A) → Outcome f xs (binary_search_by f xs)
  unfolding binary_search_by
  binary_search_by-Outcome f [] = record {
    before = [];
    behind = [];
    whole = refl;
    size = refl;
    less = tt;
    next = inl refl;
  }
  binary_search_by-Outcome f (x ∷ xs) = go (f x) refl (binary_search_by-Outcome f xs)
    where
      go :
          (c : Ordering)
          → f x ≡ c
          → Outcome f xs (binary_search_by f xs)
          → Outcome f
              (x ∷ xs)
              (elim c [ lt ↦ shift (binary_search_by f xs) | eq ↦ found 0 | gt ↦ absent 0 ])
      go lt e h = push f x xs (binary_search_by f xs) e h
      go eq e h = record {
        before = [];
        item = x;
        behind = xs;
        whole = refl;
        size = refl;
        less = tt;
        same = e;
      }
      go gt e h = record {
        before = [];
        behind = x ∷ xs;
        whole = refl;
        size = refl;
        less = tt;
        next = inr (x, xs, refl, e);
      }

  pub remove_at-middle :
      (before : List A) (x : A) (behind : List A)
      → remove_at (length before) (before ++ (x ∷ behind)) ≡ some (x, before ++ behind)
  unfolding remove_at
  remove_at-middle [] x behind = refl
  remove_at-middle (y ∷ before) x behind = rw (remove_at-middle before x behind)

  pub insert_at-middle :
      (before : List A) (x : A) (behind : List A)
      → insert_at (length before) x (before ++ behind) ≡ before ++ (x ∷ behind)
  unfolding insert_at
  insert_at-middle [] x behind = refl
  insert_at-middle (y ∷ before) x behind = ap (λ l. y ∷ l) (insert_at-middle before x behind)
