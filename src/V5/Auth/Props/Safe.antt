-- ===== src/V5/Auth/Props/Safe.antt =====
-- `AuthProperties` is read without a panic.
use mymq.Base.{length, arith}
use mymq.Error.Ensures.{NoPanic, Ensures-bind, NoPanic-bind}
use mymq.Types.Safe.{Within, Safe}
use mymq.V5.Property.{Property}
use mymq.V5.Frame.{user_only, decode_props}
use mymq.V5.Frame.Safe.{decode_props-Safe}
use mymq.V5.Auth.Props.{Draft, default_draft, set_prop, finish_draft, decode_auth_props}

set_prop-NoPanic : (draft : Draft) (property : Property) → NoPanic (set_prop draft property)
unfolding set_prop
set_prop-NoPanic draft property = ground arith

finish-NoPanic : (draft : Draft) → NoPanic (finish_draft draft)
unfolding finish_draft
finish-NoPanic draft = ground arith

pub decode_auth_props-Safe : Safe decode_auth_props
unfolding decode_auth_props
decode_auth_props-Safe stream =
    Ensures-bind (Within (length stream)) (Within (length stream))
      (decode_props user_only set_prop default_draft stream) _
      (decode_props-Safe user_only set_prop set_prop-NoPanic default_draft stream)
      (λ (draft, n) e h.
        NoPanic-bind (Within (length stream)) (finish_draft draft) _ (finish-NoPanic draft)
          (λ props e'. h))
