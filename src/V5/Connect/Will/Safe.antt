-- ===== src/V5/Connect/Will/Safe.antt =====
-- `WillProperties` is read without a panic.
use mymq.Base.{arith}
use mymq.Error.Ensures.{NoPanic}
use mymq.Types.Safe.{Safe}
use mymq.V5.Property.{Property}
use mymq.V5.PayloadFormat
use mymq.V5.Frame.{user_only}
use mymq.V5.Frame.Safe.{decode_props-Safe}
use mymq.V5.Connect.Will.{WillProperties, default_props, set_prop, decode_will_props}

set_prop-NoPanic :
    (props : WillProperties) (property : Property) → NoPanic (set_prop props property)
unfolding set_prop PayloadFormat.try_from
set_prop-NoPanic props property = ground arith

pub decode_will_props-Safe : Safe decode_will_props
unfolding decode_will_props
decode_will_props-Safe stream =
    decode_props-Safe user_only set_prop set_prop-NoPanic default_props stream
