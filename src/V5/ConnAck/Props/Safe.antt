-- ===== src/V5/ConnAck/Props/Safe.antt =====
-- `ConnAckProperties` is read without a panic.
use mymq.Base.{arith}
use mymq.Error.Ensures.{NoPanic}
use mymq.Types.Safe.{Safe}
use mymq.V5.Property.{Property}
use mymq.V5.Flag.{bool_of}
use mymq.V5.Frame.{user_only}
use mymq.V5.Frame.Safe.{decode_props-Safe}
use mymq.V5.ConnAck.Props.{ConnAckProperties, default_props, set_prop, decode_connack_props}

set_prop-NoPanic :
    (props : ConnAckProperties) (property : Property) → NoPanic (set_prop props property)
unfolding set_prop bool_of
set_prop-NoPanic props property = ground arith

pub decode_connack_props-Safe : Safe decode_connack_props
unfolding decode_connack_props
decode_connack_props-Safe stream =
    decode_props-Safe user_only set_prop set_prop-NoPanic default_props stream
