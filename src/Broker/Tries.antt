-- ===== src/Broker/Tries.antt =====
-- `SubscribedTrie` and `RetainedTrie` of ttrie.rs: a trie with its statistics behind a lock. Each
-- operation reads a snapshot, computes the next one, and writes it back under a second lock.
pub mod Registry
pub mod Subscribed
pub mod Races
pub mod Delivery
use mymq.Base.{
  ℕ, ◌+◌, ◌-◌, ◌^◌, min, Bool, true, false, List, [], ◌∷◌, Option, none, some, length,
  if◌then◌else◌, ◌==◌,
}
use mymq.Error.{Result, ok, panic, ◌>>=◌}
use mymq.Types.Utf8.{Str}
use mymq.Types.Topic.{iter_topic_path}
use mymq.Broker.TTrie.{Node, root, nil, Value, sub, unsub, set, remove}
use mymq.Broker.TTrie.Match.{match_topic}

-- The counters are `usize`.
pub record Stats : Type 0 where
  pub count : ℕ
  pub repeat : ℕ
  pub missing : ℕ
  pub lookups : ℕ
  pub hits : ℕ

pub record Inner {ℓ} (V : Type ℓ) : Type ℓ where
  pub stats : Stats
  pub root : Node V

abbrev pub saturating_inc : ℕ → ℕ
saturating_inc n = min (n + 1) (2 ^ 64 - 1)

-- `saturating_sub(1)`
abbrev pub saturating_dec : ℕ → ℕ
saturating_dec n = n - 1

abbrev inc_if : Bool → ℕ → ℕ
inc_if b n = if b then saturating_inc n else n

abbrev dec_if : Bool → ℕ → ℕ
dec_if b n = if b then saturating_dec n else n

abbrev pub default_stats : Stats
default_stats = record { count = 0; repeat = 0; missing = 0; lookups = 0; hits = 0 }

abbrev pub default_inner {ℓ} : {V : Type ℓ} → Inner V
default_inner = record { stats = default_stats; root = root nil }

abbrev counted : Stats → Bool → Stats
counted s hit = record {
  count = s.count;
  repeat = s.repeat;
  missing = s.missing;
  lookups = saturating_inc s.lookups;
  hits = inc_if hit s.hits;
}

-- `Option::unwrap`
abbrev unwrap_root {ℓ} : {V : Type ℓ} → Option (Node V) → Result (Node V)
unwrap_root none = panic
unwrap_root (some node) = ok node

module _ {ℓ} {V : Type ℓ} ⦃o : Value V⦄ where
  unfoldable pub do_subscribe : Str → V → Inner V → Result (Inner V)
  do_subscribe key value inner = do
    (node, first, repeat) ← sub (iter_topic_path key) value inner.root
    let s = inner.stats
    ok (record {
      stats = record {
        count = inc_if first s.count;
        repeat = inc_if repeat s.repeat;
        missing = s.missing;
        lookups = s.lookups;
        hits = s.hits;
      };
      root = node;
    })

  unfoldable pub do_unsubscribe : Str → V → Inner V → Result (Inner V)
  do_unsubscribe key value inner = do
    (node', last, missing) ← unsub (iter_topic_path key) value inner.root
    node ← unwrap_root node'
    let s = inner.stats
    ok (record {
      stats = record {
        count = dec_if last s.count;
        repeat = s.repeat;
        missing = dec_if missing s.missing;
        lookups = s.lookups;
        hits = s.hits;
      };
      root = node;
    })

module _ {ℓ} {V : Type ℓ} where
  unfoldable pub match_topic_name : Str → Inner V → List V × Inner V
  match_topic_name key inner = elim (match_topic (iter_topic_path key) true inner.root) [
    | some vals ↦ (vals, record { stats = counted inner.stats true; root = inner.root })
    | none ↦ ([], record { stats = counted inner.stats false; root = inner.root })
  ]

  -- `assert!(vals.len() == 1)`
  unfoldable pub only : List V → Result V
  only (v ∷ []) = ok v
  only vals = panic

  unfoldable pub match_topic_filter : Str → Inner V → Result (Option V × Inner V)
  unfolding only
  match_topic_filter key inner = elim (match_topic (iter_topic_path key) false inner.root) [
    | some vals ↦ do
      v ← only vals
      ok (some v, record { stats = counted inner.stats true; root = inner.root })
    | none ↦ ok (none, record { stats = counted inner.stats false; root = inner.root })
  ]

  unfoldable pub do_set : Str → V → Inner V → Result (Inner V)
  do_set key value inner = do
    (node, first) ← set (iter_topic_path key) value inner.root
    let s = inner.stats
    ok (record {
      stats = record {
        count = inc_if first s.count;
        repeat = s.repeat;
        missing = s.missing;
        lookups = s.lookups;
        hits = s.hits;
      };
      root = node;
    })

  unfoldable pub do_remove : Str → Inner V → Result (Inner V)
  do_remove key inner = do
    (node', missing) ← remove (iter_topic_path key) inner.root
    node ← unwrap_root node'
    let s = inner.stats
    ok (record {
      stats = record {
        count = dec_if (if missing then false else true) s.count;
        repeat = s.repeat;
        missing = dec_if missing s.missing;
        lookups = s.lookups;
        hits = s.hits;
      };
      root = node;
    })
