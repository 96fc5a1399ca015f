-- ===== src/Broker/TTrie/Match/Spec.antt =====
-- `match_topic` returns the values of the stored filters that match.
use mymq.Base.{
  Bool, true, false, List, [], ◌∷◌, Option, none, some, ◌≡◌, ◌≢◌, ◌↔◌, refl, ◌∙◌, ◌⊎◌, inl, inr,
  All,
}
use mymq.Types.Utf8.{Str}
use mymq.Broker.TTrie.{Node, root, child, Value, children, as_name, is_root}
use mymq.Broker.TTrie.Match.{values_of, multi, single, candidates, or_empty, match_topic}
use mymq.Broker.TTrie.Match.Filters.{Matches, Plain, In}
use mymq.Broker.TTrie.Path.{values_at, values_at-of_find, IsTrie, IsTrie-parts, IsBranch}
use mymq.Broker.TTrie.Path.Names.{find}
use mymq.Broker.TTrie.Match.Filters.{All-In}
use mymq.Broker.TTrie.Match.Members.{find-In, In-find}
use mymq.Broker.TTrie.Match.Level.{
  Allowed, gather-In, In-gather, candidates-In, In-candidates, Through, adds-Through, Through-adds,
}

module _ {ℓ} {V : Type ℓ} ⦃o : Value V⦄ where
  -- The value is stored under a filter that matches.
  abbrev pub Stored : List Str → Bool → V → Node V → Type ℓ
  Stored levels dollar v t =
      (fs : List Str) × Matches levels fs × Allowed dollar (is_root t) fs × In v (values_at fs t)

  match_sound :
      (level : Str) (levels : List Str) (dollar : Bool) (v : V) (t : Node V)
      → IsTrie t
      → All Plain (level ∷ levels)
      → ((c : Node V)
          → IsTrie c
          → is_root c ≡ false
          → In v (or_empty (match_topic levels dollar c))
          → (fs : List Str) × Matches levels fs × In v (values_at fs c))
      → In v (or_empty (match_topic (level ∷ levels) dollar t))
      → Stored (level ∷ levels) dollar v t
  match_sound level levels dollar v t ht hp rec h =
      let down = match_topic levels dollar in
      let (_, sorted, branches) = IsTrie-parts t ht in
      let (c, i, a) = gather-In down level v (candidates dollar t) (unfold match_topic in h) in
      let member = candidates-In dollar t c in
      let found_c = In-find c (children t) sorted (member [] i).0 in
      let (hr, hc) = All-In IsBranch c (children t) branches (member [] i).0 in
      elim (adds-Through down level v c hp.0 a) [
        | inl (e, m) ↦ (
          as_name c ∷ [],
          inl (e, refl),
          (member [] i).1,
          rw (values_at-of_find (as_name c) [] t (some c) found_c) (unfold values_at in m),
        )
        | inr (n, e, m) ↦
            let (fs, hm, k) = rec c hc hr m in
            (
              as_name c ∷ fs,
              inr (n, e, hm),
              (member fs i).1,
              rw (values_at-of_find (as_name c) fs t (some c) found_c) k,
            )
      ]

  match_complete :
      (level : Str) (levels : List Str) (dollar : Bool) (v : V) (t : Node V)
      → IsTrie t
      → All Plain (level ∷ levels)
      → ((c : Node V) (fs : List Str)
          → IsTrie c
          → is_root c ≡ false
          → Matches levels fs
          → In v (values_at fs c)
          → In v (or_empty (match_topic levels dollar c)))
      → Stored (level ∷ levels) dollar v t
      → In v (or_empty (match_topic (level ∷ levels) dollar t))
  match_complete level levels dollar v t ht hp rec ([], hm, al, h) = absurd hm
  match_complete level levels dollar v t ht hp rec (f ∷ fs, hm, al, h) =
      go (find f (children t)) refl
    where
      through :
          (c : Node V)
          → as_name c ≡ f
          → IsTrie c
          → is_root c ≡ false
          → In v (values_at fs c)
          → ((f ≡ multi) × (fs ≡ []))
            ⊎ ((f ≢ multi) × ((f ≡ single) ⊎ (f ≡ level)) × Matches levels fs)
          → Through (match_topic levels dollar) level v c
      through c n hc hr k (inl (e, z)) = inl (n ∙ e, unfold values_at in (rw z at k))
      through c n hc hr k (inr (e, w, m)) = inr (rw n (e, w, rec c fs hc hr m k))

      go :
          (r : Option (Node V))
          → find f (children t) ≡ r
          → In v (or_empty (match_topic (level ∷ levels) dollar t))
      go none e = elim (rw (values_at-of_find f fs t none e) at h) [ ]
      go (some c) e =
          let (_, sorted, branches) = IsTrie-parts t ht in
          let (i, n) = find-In f c (children t) e in
          let (hr, hc) = All-In IsBranch c (children t) branches i in
          let k : In v (values_at fs c) = rw (values_at-of_find f fs t (some c) e) at h in
          let tried : In c (candidates dollar t) = In-candidates dollar t c fs i (rw n al) in
          unfold match_topic in
          In-gather (match_topic levels dollar) level v c (candidates dollar t) tried
            (Through-adds (match_topic levels dollar) level v c hp.0 (through c n hc hr k hm))

  -- Below the root every filter is tried.
  Allowed-below :
      (dollar : Bool) (t : Node V) (fs : List Str)
      → is_root t ≡ false
      → Allowed dollar (is_root t) fs
  Allowed-below true t fs e = rw e tt
  Allowed-below false t fs e = tt

  match_end :
      (dollar : Bool) (v : V) (t : Node V)
      → is_root t ≡ false
      → In v (or_empty (match_topic [] dollar t))
        ↔ ((fs : List Str) × Matches [] fs × In v (values_at fs t))
  match_end dollar v (root cs) e = unfold is_root in cc
  match_end dollar v (child name cs values) e = (λ h. ([], tt, same.1 h), back)
    where
      same :
          In v (values_at [] (child name cs values))
          ↔ In v (or_empty (match_topic [] dollar (child name cs values)))
      same = unfold match_topic values_at values_of in (λ h. h, λ h. h)

      back :
          ((fs : List Str) × Matches [] fs × In v (values_at fs (child name cs values)))
          → In v (or_empty (match_topic [] dollar (child name cs values)))
      back ([], m, h) = same.0 h
      back (f ∷ fs, m, h) = absurd m

  match_child :
      (levels : List Str) (dollar : Bool) (v : V) (t : Node V)
      → IsTrie t
      → is_root t ≡ false
      → All Plain levels
      → In v (or_empty (match_topic levels dollar t))
        ↔ ((fs : List Str) × Matches levels fs × In v (values_at fs t))
  match_child [] dollar v t ht hr hp = match_end dollar v t hr
  match_child (level ∷ levels) dollar v t ht hr hp = (
    λ h.
        let (fs, m, _, k) =
          match_sound level levels dollar v t ht hp
            (λ c hc r. (match_child levels dollar v c hc r hp.1).0) h in
        (fs, m, k),
    λ s.
        match_complete level levels dollar v t ht hp
          (λ c fs hc r m k. (match_child levels dollar v c hc r hp.1).1 (fs, m, k))
          (s.0, s.1, Allowed-below dollar t s.0 hr, s.2),
  )

  -- For a topic name whose levels are no wildcards, a well-formed trie returns exactly the values
  -- that are stored under a filter that matches the name; but at the root, with `dollar` set, none
  -- that is stored under a filter whose first level is a wildcard.
  pub match_topic_lem :
      (level : Str) (levels : List Str) (dollar : Bool) (v : V) (t : Node V)
      → IsTrie t
      → All Plain (level ∷ levels)
      → In v (or_empty (match_topic (level ∷ levels) dollar t)) ↔ (
          (fs : List Str) × Matches (level ∷ levels) fs
          × Allowed dollar (is_root t) fs
          × In v (values_at fs t))
  match_topic_lem level levels dollar v t ht hp = (
    match_sound level levels dollar v t ht hp
        (λ c hc r. (match_child levels dollar v c hc r hp.1).0),
    match_complete level levels dollar v t ht hp
        (λ c fs hc r m k. (match_child levels dollar v c hc r hp.1).1 (fs, m, k)),
  )
