-- ===== src/V5/Flag/Laws.antt =====
-- A Boolean is read back as it was written.
use mymq.Base.{Bool, true, false, ◌≡◌, refl}
use mymq.Error.{ok, ◌>>=◌}
use mymq.V5.Flag.{bit, bool_of}

pub set_flag :
    {P : Type 0} (flag : Bool) (make : Bool → P)
    → (bool_of (bit flag) >>= λ b. ok (make b)) ≡ ok (make flag)
unfolding bool_of
set_flag true make = refl
set_flag false make = refl
