-- ===== src/V5/Disconnect/Props/Safe.antt =====
-- `DisconnProperties` is read without a panic.
use mymq.Base.{arith}
use mymq.Error.Ensures.{NoPanic}
use mymq.Types.Safe.{Safe}
use mymq.V5.Property.{Property}
use mymq.V5.Frame.{user_only}
use mymq.V5.Frame.Safe.{decode_props-Safe}
use mymq.V5.Disconnect.Props.{DisconnProperties, default_props, set_prop, decode_disconn_props}

set_prop-NoPanic :
    (props : DisconnProperties) (property : Property) → NoPanic (set_prop props property)
unfolding set_prop
set_prop-NoPanic props property = ground arith

pub decode_disconn_props-Safe : Safe decode_disconn_props
unfolding decode_disconn_props
decode_disconn_props-Safe stream =
    decode_props-Safe user_only set_prop set_prop-NoPanic default_props stream
