-- ===== src/Examples/AckRuns.antt =====
-- Runs of the acknowledgements.
use mymq.Base.{ℕ, ◌+◌, ◌≤◌, false, List, [], ◌∷◌, none, length, ◌≡◌, refl, inl, arith}
use mymq.Error.{ok, ReasonCode}
use mymq.Types.Blob.{Blob, small_of, as_ref, as_ref-small_of}
use mymq.Types.VarU32
use mymq.V5.PacketType
use mymq.Types.Written.{Written}
use mymq.V5.Frame.{user_only, props_loop, enc_opt_props}
use mymq.V5.Frame.Rounds.{props_loop_fuel}
use mymq.V5.AckProps.{set_prop, default_props, encode_ack_props}
use mymq.V5.PubAck
use mymq.V5.PubAck.{Pub}
use mymq.V5.PubAck.RoundTrip.{IsPub, encode_pub-Written}

abbrev ack : Pub
ack = record {
  packet_type = PacketType.pub_ack;
  packet_id = 258;
  code = ReasonCode.success;
  properties = none;
}

ack_short :
    (blob : Blob)
    → enc_opt_props encode_ack_props none ≡ ok blob
    → 3 + length (as_ref blob) ≤ VarU32.max_var_u32
unfolding enc_opt_props VarU32.encode
ack_short blob e =
    let b : blob ≡ small_of (0 ∷ []) = cc in rw b (rw (as_ref-small_of (0 ∷ [])) (omega arith))

ack-IsPub : IsPub ack
ack-IsPub = record {
  ack = inl refl;
  valid = unfold PubAck.validate PubAck.ack_code in refl;
  props = tt;
  short = ack_short;
}

encode_pub-Written_example : Written PubAck.encode PubAck.decode ack
encode_pub-Written_example = encode_pub-Written ack ack-IsPub

-- One user property of seven bytes.
abbrev user_bytes : List ℕ
user_bytes = 38 ∷ 0 ∷ 1 ∷ b'k' ∷ 0 ∷ 1 ∷ b'v' ∷ []

props_loop_fuel_example :
    props_loop user_only set_prop 8 user_bytes 7 0 (λ m. false) default_props
    ≡ props_loop user_only set_prop 100 user_bytes 7 0 (λ m. false) default_props
props_loop_fuel_example =
    props_loop_fuel user_only set_prop 7 99 user_bytes 7 0 (λ m. false) default_props (omega arith)
      (omega arith)
