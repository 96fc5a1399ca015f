-- ===== src/Examples/TrieRuns.antt =====
-- Runs of the trie of subscriptions.
use mymq.Base.{ℕ, true, false, List, [], ◌∷◌, none, ◌≡◌, ◌≢◌, ◌↔◌, refl, All}
use mymq.Error.{ok, panic}
use mymq.Types.Utf8.{Str, utf8, utf8_char}
use mymq.Types.Topic.{iter_topic_path, validate_name, any}
use mymq.V5.Qos
use mymq.V5.Subscription.{
  Subscription, on_every_subscribe, subscription_value, subscription-IsOrdered,
}
use mymq.Types.StrOrd.{cmp}
use mymq.Broker.TTrie.Path.Names.{find}
use mymq.Broker.TTrie.{
  Node, root, child, nil, cons, is_root, to_list, children, as_name, unsub, remove,
}
use mymq.Broker.TTrie.Match.{values_of, match_topic, or_empty}
use mymq.Broker.TTrie.Match.Filters.{Matches, Plain, In}
use mymq.Broker.TTrie.Match.Level.{Allowed}
use mymq.Broker.TTrie.Match.Spec.{match_topic_lem}
use mymq.Broker.TTrie.Path.{values_at, IsTrie, AllTries}
use mymq.Broker.TTrie.Subscribe.{Subscribed, sub-Subscribed}
use mymq.Broker.TTrie.Unsubscribe.{Unsubscribed}
use mymq.Broker.TTrie.Unsubscribe.Step.{unsub-Unsubscribed}
use mymq.Broker.TTrie.Unsubscribe.Panics.{node_at, unsub_panics}
use mymq.Broker.Tries.{Inner, default_stats, match_topic_name}
use mymq.Broker.Tries.Registry.{
  Registry, Op, subscribe, unsubscribe, match_name, apply, apply_all, AllLegal, update, path_eq,
}
use mymq.Broker.Tries.Subscribed.{Holds, run, run-Holds}
use mymq.Broker.Tries.Delivery.{delivery}
use mymq.Broker.Tries.Races.{World}

abbrev level_a : Str
level_a = b'a' ∷ []

abbrev level_b : Str
level_b = b'b' ∷ []

abbrev plus : Str
plus = b'+' ∷ []

-- "a/+" and "a/b"
abbrev filter_a : Str
filter_a = b'a' ∷ b'/' ∷ b'+' ∷ []

abbrev name_ab : Str
name_ab = b'a' ∷ b'/' ∷ b'b' ∷ []

abbrev client : ℕ → Subscription
client id = record {
  topic_filter = filter_a;
  client_id = id ∷ [];
  shard_id = 0;
  subscription_id = none;
  qos = Qos.at_least_once;
  no_local = false;
  retain_as_published = false;
  retain_forward_rule = on_every_subscribe;
}

abbrev alice : Subscription
alice = client b'A'

abbrev bob : Subscription
bob = client b'B'

-- The trie that holds alice under "a/+".
abbrev tree : Node Subscription
tree = root (cons (child level_a (cons (child plus nil (alice ∷ [])) nil) []) nil)

abbrev one_inner : Inner Subscription
one_inner = record { stats = default_stats; root = tree }

tree-IsTrie : IsTrie tree
unfolding IsTrie AllTries to_list is_root
tree-IsTrie = ((tt, tt), (refl, (tt, (tt, tt), (refl, ((tt, tt), tt, tt), tt)), tt))

Plain-ab : All Plain (level_a ∷ level_b ∷ [])
Plain-ab = ((λ e. cc, λ e. cc), ((λ e. cc, λ e. cc), tt))

match_topic_lem_example : In alice (or_empty (match_topic (level_a ∷ level_b ∷ []) true tree)) ↔ (
    (fs : List Str) × Matches (level_a ∷ level_b ∷ []) fs
    × Allowed true (is_root tree) fs
    × In alice (values_at fs tree))
match_topic_lem_example =
    match_topic_lem level_a (level_b ∷ []) true alice tree tree-IsTrie Plain-ab

sub-Subscribed_example : Subscribed (level_a ∷ plus ∷ []) bob tree
sub-Subscribed_example =
    sub-Subscribed subscription-IsOrdered level_a (plus ∷ []) bob tree tree-IsTrie

stored : values_at (level_a ∷ plus ∷ []) tree ≢ []
unfolding values_at values_of children to_list find as_name cmp
stored e = cc

unsub-Unsubscribed_example : Unsubscribed (level_a ∷ plus ∷ []) alice tree
unsub-Unsubscribed_example =
    unsub-Unsubscribed subscription-IsOrdered level_a (plus ∷ []) alice tree tree-IsTrie stored

unsub_panics_example :
    (unsub (level_a ∷ []) alice tree ≡ panic) × (remove (level_a ∷ []) tree ≡ panic)
unsub_panics_example =
    unsub_panics (level_a ∷ []) alice tree
      (child level_a (cons (child plus nil (alice ∷ [])) nil) []) tree-IsTrie
      (unfold node_at children to_list find as_name cmp in refl) (unfold values_of in refl)

-- The registry that `tree` stands for.
abbrev one_registry : Registry Subscription
one_registry p = values_at p tree

one-Holds : Holds one_inner one_registry
one-Holds = record { trie = tree-IsTrie; rooted = unfold is_root in refl; same = λ p. refl }

-- "a" is subscribed to, "a/b" looked up, and "a/+" given up.
abbrev ops : List (Op Subscription)
ops = subscribe level_a bob ∷ match_name name_ab ∷ unsubscribe filter_a alice ∷ []

ops-AllLegal : AllLegal ops one_registry
unfolding AllLegal apply update path_eq iter_topic_path values_at values_of children to_list find
    as_name cmp
ops-AllLegal = (tt, (tt, ((λ e. cc), tt)))

run-Holds_example :
    (next : Inner Subscription) × (run ops one_inner ≡ ok next)
    × Holds next (apply_all ops one_registry)
run-Holds_example =
    run-Holds subscription-IsOrdered ops one_inner one_registry one-Holds ops-AllLegal

delivery_example : In alice (match_topic_name name_ab one_inner).0 ↔ (
    (fs : List Str) × Matches (iter_topic_path name_ab) fs
    × Allowed true true fs
    × In alice (one_registry fs))
delivery_example =
    delivery name_ab one_inner one_registry alice one-Holds
      (unfold validate_name any utf8 utf8_char in refl)

abbrev giving_up : Op Subscription
giving_up = unsubscribe filter_a alice

abbrev shared_one : World Subscription
shared_one = record { shared = one_inner; snapshot = λ h. one_inner }
