-- ===== src/V5/UnSubscribe/Props/Safe.antt =====
-- `UnSubscribeProperties` is read without a panic.
use mymq.Base.{arith}
use mymq.Error.Ensures.{NoPanic}
use mymq.Types.Safe.{Safe}
use mymq.V5.Property.{Property}
use mymq.V5.Frame.{user_only}
use mymq.V5.Frame.Safe.{decode_props-Safe}
use mymq.V5.UnSubscribe.Props.{UnSubscribeProperties, default_props, set_prop, decode_unsub_props}

set_prop-NoPanic :
    (props : UnSubscribeProperties) (property : Property) → NoPanic (set_prop props property)
unfolding set_prop
set_prop-NoPanic props property = ground arith

pub decode_unsub_props-Safe : Safe decode_unsub_props
unfolding decode_unsub_props
decode_unsub_props-Safe stream =
    decode_props-Safe user_only set_prop set_prop-NoPanic default_props stream
