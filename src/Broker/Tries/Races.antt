-- ===== src/Broker/Tries/Races.antt =====
-- Two holders of one `SubscribedTrie`. The read lock is dropped before the write lock is taken, so
-- that what one writes may rest on a snapshot from before the other's write.
use mymq.Base.{List, [], ◌∷◌, ◌≢◌}
use mymq.Error.{Result, ok, ◌>>=◌}
use mymq.Types.Utf8.{Str}
use mymq.Types.Topic.{iter_topic_path}
use mymq.Broker.TTrie.{Value}
use mymq.Broker.Tries.{Inner}
use mymq.Broker.Tries.Registry.{Registry, Op, subscribe, unsubscribe, match_name}
use mymq.Broker.Tries.Subscribed.{step}

pub data Holder : Type 0 where
  first second : Holder

-- What is behind the lock, and the snapshot that each holder works on.
pub record World {ℓ} (V : Type ℓ) : Type ℓ where
  pub shared : Inner V
  pub snapshot : Holder → Inner V

pub data Event {ℓ} (V : Type ℓ) : Type ℓ where
  read : Holder → Event V
  write : Holder → Op V → Event V

module _ {ℓ} {V : Type ℓ} ⦃o : Value V⦄ where
  remember : Holder → Inner V → (Holder → Inner V) → Holder → Inner V
  remember first inner old first = inner
  remember first inner old second = old second
  remember second inner old first = old first
  remember second inner old second = inner

  -- One locked section of an operation: it clones what is behind the read lock, and later assigns
  -- under the write lock what it made of that clone.
  unfoldable pub happen : Event V → World V → Result (World V)
  unfolding step remember
  happen (read h) w = ok (record { shared = w.shared; snapshot = remember h w.shared w.snapshot })
  happen (write h op) w = do
    next ← step op (w.snapshot h)
    ok (record { shared = next; snapshot = w.snapshot })

  unfoldable pub happen_all : List (Event V) → World V → Result (World V)
  unfolding happen
  happen_all [] w = ok w
  happen_all (ev ∷ evs) w = do w' ← happen ev w; happen_all evs w'

  -- The operation is a lookup, or is about another filter.
  abbrev pub Elsewhere : Str → Op V → Type 0
  Elsewhere key (subscribe other v) = iter_topic_path other ≢ iter_topic_path key
  Elsewhere key (unsubscribe other v) = iter_topic_path other ≢ iter_topic_path key
  Elsewhere key (match_name name) = Unit

  -- Each of the two reads and writes before the other begins.
  abbrev pub one_by_one : Op V → Op V → List (Event V)
  one_by_one a b = read first ∷ write first a ∷ read second ∷ write second b ∷ []

  -- Both read before either writes.
  abbrev pub interleaved : Op V → Op V → List (Event V)
  interleaved a b = read first ∷ read second ∷ write first a ∷ write second b ∷ []
