-- ===== src/V5/Subscription.antt =====
-- `Subscription` of v5/mod.rs, as the trie of subscriptions orders and compares it.
use Prim.Native.Nat.{Ordering}
use Prim.Native.Nat.Ordering.{lt, eq, gt}
use mymq.Base.{ℕ, ◌≡◌, refl, Bool, true, false, ◌&&◌, ◌==◌, Option, none, some, arith}
use mymq.Types.Utf8.{Str}
use mymq.Types.StrOrd
use mymq.Types.Topic.{TopicFilter}
use mymq.V5.Qos.{Qos, to_u8}
use mymq.Broker.TTrie.{Value}
use mymq.Broker.TTrie.Path.Values.{IsOrdered}

pub data RetainForwardRule : Type 0 where
  on_every_subscribe on_new_subscribe never : RetainForwardRule

pub record Subscription : Type 0 where
  pub topic_filter : TopicFilter
  pub client_id : Str
  pub shard_id : ℕ
  pub subscription_id : Option ℕ
  pub qos : Qos
  pub no_local : Bool
  pub retain_as_published : Bool
  pub retain_forward_rule : RetainForwardRule

str_eq : Str → Str → Bool
str_eq s t = elim (StrOrd.cmp s t) [ eq ↦ true | _ ↦ false ]

bool_eq : Bool → Bool → Bool
bool_eq true b = b
bool_eq false true = false
bool_eq false false = true

opt_eq : Option ℕ → Option ℕ → Bool
opt_eq none none = true
opt_eq none (some b) = false
opt_eq (some a) none = false
opt_eq (some a) (some b) = a == b

rule : RetainForwardRule → ℕ
rule on_every_subscribe = 0
rule on_new_subscribe = 1
rule never = 2

-- `PartialEq`: all but the shard.
unfoldable pub beq : Subscription → Subscription → Bool
unfolding str_eq bool_eq opt_eq rule to_u8
beq a b =
    str_eq a.topic_filter b.topic_filter
    && str_eq a.client_id b.client_id
    && opt_eq a.subscription_id b.subscription_id
    && to_u8 a.qos == to_u8 b.qos
    && bool_eq a.no_local b.no_local
    && bool_eq a.retain_as_published b.retain_as_published
    && rule a.retain_forward_rule == rule b.retain_forward_rule

-- `Ord`: the client, then the filter.
unfoldable pub cmp : Subscription → Subscription → Ordering
cmp a b = elim (StrOrd.cmp a.client_id b.client_id) [
  | eq ↦ StrOrd.cmp a.topic_filter b.topic_filter
  | lt ↦ lt
  | gt ↦ gt
]

instance abbrev pub subscription_value : Value Subscription
subscription_value = record { cmp_value = cmp; beq = beq }

cmp_refl : (v : Subscription) → cmp v v ≡ eq
unfolding cmp
cmp_refl v = ground (arith, StrOrd.cmp_refl v.client_id, StrOrd.cmp_refl v.topic_filter)

gt_of_lt : (v w : Subscription) → cmp v w ≡ lt → cmp w v ≡ gt
unfolding cmp
gt_of_lt v w h = ground (
  arith,
  StrOrd.gt_of_lt v.client_id w.client_id,
  StrOrd.gt_of_lt v.topic_filter w.topic_filter,
  StrOrd.eq_of_cmp v.client_id w.client_id,
  StrOrd.cmp_refl w.client_id,
)

lt_of_gt : (v w : Subscription) → cmp v w ≡ gt → cmp w v ≡ lt
unfolding cmp
lt_of_gt v w h = ground (
  arith,
  StrOrd.lt_of_gt v.client_id w.client_id,
  StrOrd.lt_of_gt v.topic_filter w.topic_filter,
  StrOrd.eq_of_cmp v.client_id w.client_id,
  StrOrd.cmp_refl w.client_id,
)

lt_trans : (v w x : Subscription) → cmp v w ≡ lt → cmp w x ≡ lt → cmp v x ≡ lt
unfolding cmp
lt_trans v w x h k = ground (
  arith,
  StrOrd.lt_trans v.client_id w.client_id x.client_id,
  StrOrd.lt_trans v.topic_filter w.topic_filter x.topic_filter,
  StrOrd.eq_of_cmp v.client_id w.client_id,
  StrOrd.eq_of_cmp w.client_id x.client_id,
)

str_eq_refl : (s : Str) → str_eq s s ≡ true
unfolding str_eq
str_eq_refl s = ground (arith, StrOrd.cmp_refl s)

bool_eq_refl : (b : Bool) → bool_eq b b ≡ true
unfolding bool_eq
bool_eq_refl true = refl
bool_eq_refl false = refl

opt_eq_refl : (o : Option ℕ) → opt_eq o o ≡ true
unfolding opt_eq
opt_eq_refl none = refl
opt_eq_refl (some n) = ground arith

beq_refl : (v : Subscription) → beq v v ≡ true
unfolding beq
beq_refl v = grind (
  arith,
  str_eq_refl v.topic_filter,
  str_eq_refl v.client_id,
  opt_eq_refl v.subscription_id,
  bool_eq_refl v.no_local,
  bool_eq_refl v.retain_as_published,
)

-- The order of subscriptions is a total order on (client, filter).
pub subscription-IsOrdered : IsOrdered subscription_value
subscription-IsOrdered = record {
  cmp_refl = cmp_refl;
  gt_of_lt = gt_of_lt;
  lt_of_gt = lt_of_gt;
  lt_trans = lt_trans;
  beq_refl = beq_refl;
}
