-- ===== src/V5/Publish/Props/Safe.antt =====
-- `PublishProperties` is read without a panic.
use mymq.Base.{arith}
use mymq.Error.Ensures.{NoPanic}
use mymq.Types.Safe.{Safe}
use mymq.V5.Property.{Property}
use mymq.V5.PayloadFormat
use mymq.V5.Frame.Safe.{decode_props-Safe}
use mymq.V5.Publish.Props.{
  PublishProperties, default_props, set_prop, decode_publish_props, publish_dup_ok,
}

set_prop-NoPanic :
    (props : PublishProperties) (property : Property) → NoPanic (set_prop props property)
unfolding set_prop PayloadFormat.try_from
set_prop-NoPanic props property = ground arith

pub decode_publish_props-Safe : Safe decode_publish_props
unfolding decode_publish_props
decode_publish_props-Safe stream =
    decode_props-Safe publish_dup_ok set_prop set_prop-NoPanic default_props stream
