-- ===== src/V5/Qos.antt =====
-- `QoS` of v5/mod.rs
use mymq.Base.{ℕ, ◌≡◌, refl, ◌==◌, if◌then◌else◌, leb}
use mymq.Error.{Result, ok, err, malformed}

pub data Qos : Type 0 where
  at_most_once at_least_once exactly_once : Qos

unfoldable pub try_from : ℕ → Result Qos
try_from val =
    if val == 0
    then ok at_most_once
    else if val == 1
    then ok at_least_once
    else if val == 2
    then ok exactly_once
    else err malformed

unfoldable pub to_u8 : Qos → ℕ
to_u8 at_most_once = 0
to_u8 at_least_once = 1
to_u8 exactly_once = 2

-- The derived order, and `cmp::min` on it.
unfoldable pub min_qos : Qos → Qos → Qos
min_qos a b = if leb (to_u8 a) (to_u8 b) then a else b

pub try_from-to_u8 : (q : Qos) → try_from (to_u8 q) ≡ ok q
unfolding try_from to_u8
try_from-to_u8 at_most_once = refl
try_from-to_u8 at_least_once = refl
try_from-to_u8 exactly_once = refl
