-- ===== src/V5/Publish/Fields.antt =====
-- The setters of `Publish`.
use mymq.Base.{ℕ, List, [], ◌∷◌, ◌++◌, Option, none, some, ◌≡◌, refl, append_assoc, append-nil}
use mymq.V5.Publish.{Publish, set_subscription_ids, push_id}
use mymq.V5.Publish.Props.{PublishProperties, default_props}

-- The properties that a packet has, or else the default ones.
abbrev pub props_of : Option PublishProperties → PublishProperties
props_of none = default_props
props_of (some props) = props

abbrev pub add_ids : List ℕ → PublishProperties → PublishProperties
add_ids ids props = record props { subscribtion_identifier = props.subscribtion_identifier ++ ids }

set_subscription_ids-some :
    (ids : List ℕ) (props : PublishProperties) (packet : Publish)
    → set_subscription_ids ids (record packet { properties = some props })
      ≡ record packet { properties = some (add_ids ids props) }
unfolding set_subscription_ids push_id
set_subscription_ids-some [] props packet = rw (append-nil props.subscribtion_identifier) refl
set_subscription_ids-some (id ∷ ids) props packet =
    rw
      (
        set_subscription_ids-some ids (add_ids (id ∷ []) props) packet,
        append_assoc props.subscribtion_identifier (id ∷ []) ids,
      )
      refl

push_id-some :
    (id : ℕ) (o : Option PublishProperties) → push_id id o ≡ some (add_ids (id ∷ []) (props_of o))
unfolding push_id
push_id-some id none = refl
push_id-some id (some props) = refl

-- Without ids the packet stays. Otherwise the ids go behind those that the packet has, in their
-- order: every other property keeps its value, or has its default where the packet had no
-- properties, and of the packet only the properties change.
pub set_subscription_ids_lem :
    (id : ℕ) (ids : List ℕ) (packet : Publish)
    → (set_subscription_ids [] packet ≡ packet)
      × (set_subscription_ids (id ∷ ids) packet
          ≡ record packet { properties = some (add_ids (id ∷ ids) (props_of packet.properties)) })
unfolding set_subscription_ids
set_subscription_ids_lem id ids packet =
    let props = props_of packet.properties in
    (
      refl,
      rw
          (
            push_id-some id packet.properties,
            set_subscription_ids-some ids (add_ids (id ∷ []) props) packet,
            append_assoc props.subscribtion_identifier (id ∷ []) ids,
          )
          refl,
    )
