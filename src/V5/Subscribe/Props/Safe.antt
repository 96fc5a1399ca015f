-- ===== src/V5/Subscribe/Props/Safe.antt =====
-- `SubscribeProperties` is read without a panic.
use mymq.Base.{arith}
use mymq.Error.Ensures.{NoPanic}
use mymq.Types.Safe.{Safe}
use mymq.V5.Property.{Property}
use mymq.V5.Frame.{user_only}
use mymq.V5.Frame.Safe.{decode_props-Safe}
use mymq.V5.Subscribe.Props.{SubscribeProperties, default_props, set_prop, decode_sub_props}

set_prop-NoPanic :
    (props : SubscribeProperties) (property : Property) → NoPanic (set_prop props property)
unfolding set_prop
set_prop-NoPanic props property = ground arith

pub decode_sub_props-Safe : Safe decode_sub_props
unfolding decode_sub_props
decode_sub_props-Safe stream =
    decode_props-Safe user_only set_prop set_prop-NoPanic default_props stream
