-- ===== src/Broker/TTrie/Path/Names.antt =====
-- Children in strict order of their names, and the child of a name.
use Prim.Native.Nat.Ordering.{lt, eq, gt}
use mymq.Base.{
  List, [], ◌∷◌, ◌++◌, Option, none, some, ◌≡◌, ◌≢◌, refl, All, arith, inl, inr, ◌⊎◌, ℕ, All-middle,
  All-insert,
}
use mymq.Types.Utf8.{Str}
use mymq.Types.StrOrd.{cmp, cmp_refl, eq_of_cmp, gt_of_lt, lt_of_gt, lt_trans}
use mymq.Broker.TTrie.{Node, as_name}
use mymq.Broker.TTrie.Vec.Laws.{Miss}

module _ {ℓ} {V : Type ℓ} where
  abbrev pub Before : Node V → Node V → Type 0
  Before c d = cmp (as_name c) (as_name d) ≡ lt

  abbrev pub Sorted : List (Node V) → Type 0
  Sorted [] = Unit
  Sorted (c ∷ cs) = All (Before c) cs × Sorted cs

  unfoldable pub find : Str → List (Node V) → Option (Node V)
  find name [] = none
  find name (c ∷ cs) = elim (cmp (as_name c) name) [ eq ↦ some c | _ ↦ find name cs ]

  pub find-middle_self :
      (name : Str) (before : List (Node V)) (c : Node V) (behind : List (Node V))
      → All (λ x. cmp (as_name x) name ≡ lt) before
      → as_name c ≡ name
      → find name (before ++ (c ∷ behind)) ≡ some c
  unfolding find
  find-middle_self name [] c behind h e = ground (arith, cmp_refl name)
  find-middle_self name (x ∷ before) c behind h e =
      ground (arith, find-middle_self name before c behind h.1 e)

  pub find-middle_ne :
      (name : Str) (before : List (Node V)) (c : Node V) (behind : List (Node V))
      → as_name c ≢ name
      → find name (before ++ (c ∷ behind)) ≡ find name (before ++ behind)
  unfolding find
  find-middle_ne name [] c behind h = ground (arith, eq_of_cmp (as_name c) name)
  find-middle_ne name (x ∷ before) c behind h =
      ground (arith, find-middle_ne name before c behind h)

  find_beyond :
      (name : Str) (cs : List (Node V))
      → All (λ x. cmp (as_name x) name ≡ gt) cs
      → find name cs ≡ none
  unfolding find
  find_beyond name [] h = refl
  find_beyond name (c ∷ cs) h = ground (arith, find_beyond name cs h.1)

  find_split :
      (name : Str) (before behind : List (Node V))
      → All (λ x. cmp (as_name x) name ≡ lt) before
      → All (λ x. cmp (as_name x) name ≡ gt) behind
      → find name (before ++ behind) ≡ none
  unfolding find
  find_split name [] behind hl hg = find_beyond name behind hg
  find_split name (x ∷ before) behind hl hg = ground (arith, find_split name before behind hl.1 hg)

  -- In a sorted list, whatever stands behind `c` is beyond its name, and so on.
  pub Sorted-middle :
      (before : List (Node V)) (c : Node V) (behind : List (Node V))
      → Sorted (before ++ (c ∷ behind))
      → All (λ x. Before x c) before × All (Before c) behind × Sorted (before ++ behind)
  Sorted-middle [] c behind h = (tt, h.0, h.1)
  Sorted-middle (x ∷ before) c behind h =
      let (below, above, rest) = Sorted-middle before c behind h.1 in
      let (first, others) = All-middle (Before x) before c behind h.0 in
      ((first, below), above, (others, rest))

  pub Sorted-insert :
      (before : List (Node V)) (c : Node V) (behind : List (Node V))
      → All (λ x. Before x c) before
      → All (Before c) behind
      → Sorted (before ++ behind)
      → Sorted (before ++ (c ∷ behind))
  Sorted-insert [] c behind hb ha h = (ha, h)
  Sorted-insert (x ∷ before) c behind hb ha h =
      (All-insert (Before x) before c behind hb.0 h.0, Sorted-insert before c behind hb.1 ha h.1)

  Sorted-back : (before behind : List (Node V)) → Sorted (before ++ behind) → Sorted behind
  Sorted-back [] behind h = h
  Sorted-back (x ∷ before) behind h = Sorted-back before behind h.1

  above_head :
      (name : Str) (x : Node V) (rest : List (Node V))
      → cmp name (as_name x) ≡ lt
      → All (Before x) rest
      → All (λ y. cmp name (as_name y) ≡ lt) rest
  above_head name x [] e h = tt
  above_head name x (y ∷ rest) e h =
      (lt_trans name (as_name x) (as_name y) e h.0, above_head name x rest e h.1)

  -- Behind the offset of a miss every name is beyond the one looked for.
  behind_above :
      (name : Str) (behind : List (Node V))
      → Sorted behind
      → (behind ≡ [])
        ⊎ ((x : Node V) × (rest : List (Node V)) × (behind ≡ x ∷ rest)
            × (cmp (as_name x) name ≡ gt))
      → All (λ y. cmp name (as_name y) ≡ lt) behind
  behind_above name [] h m = tt
  behind_above name (x ∷ rest) h (inl e) = cc
  behind_above name (x ∷ rest) h (inr (y, others, e, g)) =
      let l : cmp name (as_name x) ≡ lt = ground (arith, lt_of_gt (as_name x) name) in
      (l, above_head name x rest l h.0)

  flip_above :
      (name : Str) (cs : List (Node V))
      → All (λ y. cmp name (as_name y) ≡ lt) cs
      → All (λ y. cmp (as_name y) name ≡ gt) cs
  flip_above name [] h = tt
  flip_above name (y ∷ cs) h = (gt_of_lt name (as_name y) h.0, flip_above name cs h.1)

  -- What a miss means in a sorted list.
  pub Miss-above :
      (name : Str) (cs : List (Node V)) (off : ℕ)
      → Sorted cs
      → (m : Miss (λ n. cmp (as_name n) name) cs off)
      → All (λ y. cmp name (as_name y) ≡ lt) m.behind × (find name cs ≡ none)
  Miss-above name cs off h m =
      let above =
        behind_above name m.behind (Sorted-back m.before m.behind (rw m.whole at h)) m.next in
      (
        above,
        rw m.whole (find_split name m.before m.behind m.less (flip_above name m.behind above)),
      )

  -- The one child of a name gone, none is left.
  pub find-without :
      (before : List (Node V)) (c : Node V) (behind : List (Node V))
      → Sorted (before ++ (c ∷ behind))
      → find (as_name c) (before ++ behind) ≡ none
  find-without before c behind h =
      let (below, above, _) = Sorted-middle before c behind h in
      find_split (as_name c) before behind below (flip_above (as_name c) behind above)
