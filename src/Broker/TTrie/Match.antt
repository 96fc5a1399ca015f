-- ===== src/Broker/TTrie/Match.antt =====
-- `match_topic` of ttrie.rs
pub mod Filters
pub mod Members
pub mod Level
pub mod Spec
use mymq.Base.{
  Bool, true, false, not, ◌||◌, ◌&&◌, List, [], ◌∷◌, ◌++◌, Option, none, some, if◌then◌else◌,
}
use Prim.Native.Nat.Ordering.{lt, eq, gt}
use mymq.Types.Utf8.{Str}
use mymq.Types.StrOrd.{cmp}
use mymq.Broker.TTrie.Vec.{filter}
use mymq.Broker.TTrie.{Node, root, child, children, as_name}

abbrev pub multi : Str
multi = b'#' ∷ []

abbrev pub single : Str
single = b'+' ∷ []

unfoldable pub compare_level : Str → Str → Bool
compare_level in_level trie_level = elim (cmp in_level trie_level) [ eq ↦ true | _ ↦ false ]

-- (level_match, multi_level_match)
unfoldable pub match_level : Str → Str → Bool × Bool
match_level in_lvl trie_level =
    if compare_level in_lvl multi
    then (true, true)
    else if compare_level trie_level multi
    then (true, true)
    else if compare_level in_lvl single
    then (true, false)
    else if compare_level trie_level single
    then (true, false)
    else if compare_level in_lvl trie_level
    then (true, false)
    else (false, false)

module _ {ℓ} {V : Type ℓ} where
  unfoldable pub values_of : Node V → List V
  values_of (child name cs values) = values
  values_of (root cs) = []

  -- The children that `match_topic` goes through.
  unfoldable pub candidates : Bool → Node V → List (Node V)
  candidates true (root cs) =
      filter (λ c. not (compare_level (as_name c) multi || compare_level (as_name c) single))
        (children (root cs))
  candidates dollar node = children node

  abbrev pub or_empty : Option (List V) → List V
  or_empty none = []
  or_empty (some values) = values

  -- The loop over the children; `down` is `child.match_topic(in_levels.clone(), dollar)`.
  unfoldable pub gather : (Node V → Option (List V)) → Str → List (Node V) → List V
  gather down in_level [] = []
  gather down in_level (c ∷ cs) =
      let (slevel, mlevel) = match_level in_level (as_name c) in
      (if mlevel then values_of c else if slevel then or_empty (down c) else [])
      ++ gather down in_level cs

  unfoldable pub match_topic : List Str → Bool → Node V → Option (List V)
  match_topic [] dollar (child name cs values) = some values
  match_topic [] dollar (root cs) = none
  match_topic (in_level ∷ in_levels) dollar node =
      some (gather (match_topic in_levels dollar) in_level (candidates dollar node))
