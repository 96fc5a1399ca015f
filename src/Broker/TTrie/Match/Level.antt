-- ===== src/Broker/TTrie/Match/Level.antt =====
-- One level of `match_topic`: which children it tries, and what each adds.
use mymq.Base.{
  Bool, true, false, not, ◌||◌, List, [], ◌∷◌, Option, ◌≡◌, ◌≢◌, ◌↔◌, refl, ◌⊎◌, inl, inr, arith,
  if◌then◌else◌,
}
use mathlib.Core.Path.{subst}
use mymq.Types.Utf8.{Str}
use mymq.Types.StrOrd.{cmp_refl, eq_of_cmp, eq_or_ne}
use mymq.Broker.TTrie.{Node, root, child, children, as_name, is_root}
use mymq.Broker.TTrie.Match.{
  values_of, multi, single, compare_level, match_level, candidates, or_empty, gather,
}
use mymq.Broker.TTrie.Match.Filters.{
  Plain, In, here, there, In-append, In-append_left, In-append_right, In-filter, filter-In,
}

compare_level_iff : (a b : Str) → (compare_level a b ≡ true) ↔ (a ≡ b)
unfolding compare_level
compare_level_iff a b = (λ h. eq_of_cmp a b (ground arith), λ e. ground (arith, cmp_refl a))

-- The three outcomes for a level of a topic name.
match_level-multi : (level : Str) → Plain level → match_level level multi ≡ (true, true)
unfolding match_level
match_level-multi level h =
    ground (arith, compare_level_iff multi multi, compare_level_iff level multi)

match_level_down :
    (level name : Str)
    → Plain level
    → name ≢ multi
    → (name ≡ single) ⊎ (name ≡ level)
    → match_level level name ≡ (true, false)
unfolding match_level
match_level_down level name h n e = ground (
  arith,
  compare_level_iff level multi,
  compare_level_iff name multi,
  compare_level_iff level single,
  compare_level_iff name single,
  compare_level_iff level name,
)

match_level_off :
    (level name : Str)
    → Plain level
    → name ≢ multi
    → name ≢ single
    → name ≢ level
    → match_level level name ≡ (false, false)
unfolding match_level
match_level_off level name h n s e = ground (
  arith,
  compare_level_iff level multi,
  compare_level_iff name multi,
  compare_level_iff level single,
  compare_level_iff name single,
  compare_level_iff level name,
)

module _ {ℓ} {V : Type ℓ} where
  -- What one child adds to the matches.
  abbrev pub adds : (Node V → Option (List V)) → Str → Node V → List V
  adds down level c =
      let (slevel, mlevel) = match_level level (as_name c) in
      if mlevel then values_of c else if slevel then or_empty (down c) else []

  pub gather-In :
      (down : Node V → Option (List V)) (level : Str) (v : V) (cs : List (Node V))
      → In v (gather down level cs)
      → (c : Node V) × In c cs × In v (adds down level c)
  unfolding gather
  gather-In down level v [] h = elim h [ ]
  gather-In down level v (c ∷ cs) h =
      elim (In-append v (adds down level c) (gather down level cs) h) [
        | inl m ↦ (c, here refl, m)
        | inr m ↦ let (d, i, k) = gather-In down level v cs m in (d, there i, k)
      ]

  pub In-gather :
      (down : Node V → Option (List V)) (level : Str) (v : V) (c : Node V) (cs : List (Node V))
      → In c cs
      → In v (adds down level c)
      → In v (gather down level cs)
  unfolding gather
  In-gather down level v c [] i h = elim i [ ]
  In-gather down level v c (d ∷ cs) (here e) h =
      In-append_left v (adds down level d) (gather down level cs)
        (subst (λ x. In v (adds down level x)) e h)
  In-gather down level v c (d ∷ cs) (there i) h =
      In-append_right v (adds down level d) (gather down level cs) (In-gather down level v c cs i h)

-- At the root, for a topic name, no filter whose first level is a wildcard is tried.
abbrev pub Allowed : Bool → Bool → List Str → Type 0
Allowed true true (f ∷ fs) = Plain f
Allowed _ _ _ = Unit

module _ {ℓ} {V : Type ℓ} where
  not_wildcard : Node V → Bool
  not_wildcard c = not (compare_level (as_name c) multi || compare_level (as_name c) single)

  not_wildcard_iff : (c : Node V) → (not_wildcard c ≡ true) ↔ Plain (as_name c)
  unfolding not_wildcard
  not_wildcard_iff c =
      ground (arith, compare_level_iff (as_name c) multi, compare_level_iff (as_name c) single)

  pub candidates-In :
      (dollar : Bool) (t c : Node V) (fs : List Str)
      → In c (candidates dollar t)
      → In c (children t) × Allowed dollar (is_root t) (as_name c ∷ fs)
  unfolding candidates is_root not_wildcard
  candidates-In true (root cs) c fs h =
      let (i, e) = In-filter not_wildcard c (children (root cs)) h in (i, (not_wildcard_iff c).0 e)
  candidates-In true (child name cs values) c fs h = (h, tt)
  candidates-In false (root cs) c fs h = (h, tt)
  candidates-In false (child name cs values) c fs h = (h, tt)

  pub In-candidates :
      (dollar : Bool) (t c : Node V) (fs : List Str)
      → In c (children t)
      → Allowed dollar (is_root t) (as_name c ∷ fs)
      → In c (candidates dollar t)
  unfolding candidates is_root not_wildcard
  In-candidates true (root cs) c fs h a =
      filter-In not_wildcard c (children (root cs)) h ((not_wildcard_iff c).1 a)
  In-candidates true (child name cs values) c fs h a = h
  In-candidates false (root cs) c fs h a = h
  In-candidates false (child name cs values) c fs h a = h

  -- How a child adds a value: as a `#`, or by going down.
  abbrev pub Through : (Node V → Option (List V)) → Str → V → Node V → Type ℓ
  Through down level v c =
      ((as_name c ≡ multi) × In v (values_of c))
      ⊎ ((as_name c ≢ multi)
          × ((as_name c ≡ single) ⊎ (as_name c ≡ level))
          × In v (or_empty (down c)))

  pub adds-Through :
      (down : Node V → Option (List V)) (level : Str) (v : V) (c : Node V)
      → Plain level
      → In v (adds down level c)
      → Through down level v c
  adds-Through down level v c p h = elim (eq_or_ne (as_name c) multi) [
    | inl e ↦ inl (e, rw (e, match_level-multi level p) at h)
    | inr n ↦ elim (eq_or_ne (as_name c) single) [
      | inl e ↦ inr (n, inl e, rw (match_level_down level (as_name c) p n (inl e)) at h)
      | inr s ↦ elim (eq_or_ne (as_name c) level) [
        | inl e ↦ inr (n, inr e, rw (match_level_down level (as_name c) p n (inr e)) at h)
        | inr o ↦ elim (rw (match_level_off level (as_name c) p n s o) at h) [ ]
      ]
    ]
  ]

  pub Through-adds :
      (down : Node V → Option (List V)) (level : Str) (v : V) (c : Node V)
      → Plain level
      → Through down level v c
      → In v (adds down level c)
  Through-adds down level v c p (inl (e, h)) = rw (e, match_level-multi level p) h
  Through-adds down level v c p (inr (n, e, h)) = rw (match_level_down level (as_name c) p n e) h
