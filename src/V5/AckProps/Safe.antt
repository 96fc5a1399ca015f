-- ===== src/V5/AckProps/Safe.antt =====
-- `AckProperties` is read without a panic.
use mymq.Base.{arith}
use mymq.Error.Ensures.{NoPanic}
use mymq.Types.Safe.{Safe}
use mymq.V5.Property.{Property}
use mymq.V5.Frame.{user_only}
use mymq.V5.Frame.Safe.{decode_props-Safe}
use mymq.V5.AckProps.{AckProperties, default_props, set_prop, decode_ack_props}

set_prop-NoPanic : (props : AckProperties) (property : Property) → NoPanic (set_prop props property)
unfolding set_prop
set_prop-NoPanic props property = ground arith

pub decode_ack_props-Safe : Safe decode_ack_props
unfolding decode_ack_props
decode_ack_props-Safe stream =
    decode_props-Safe user_only set_prop set_prop-NoPanic default_props stream
