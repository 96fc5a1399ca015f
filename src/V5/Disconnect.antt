-- ===== src/V5/Disconnect.antt =====
-- disconnect.rs: DISCONNECT, a reason and properties, both of which may be missing on the wire.
pub mod Code
pub mod Props
pub mod RoundTrip
pub mod Safe
use mymq.Base.{ℕ, List, ◌++◌, Option, none, some, ltb, ◌==◌, if◌then◌else◌}
use mymq.Error.{Result, ok, ◌>>=◌}
use mymq.Types.Blob.{Blob, as_ref, Decoder, dec_field}
use mymq.Types.U8
use mymq.V5.PacketType.{PacketType}
use mymq.V5.Header
use mymq.V5.Frame.{dec_props, enc_opt_props, close_packet}
use mymq.V5.Disconnect.Code
use mymq.V5.Disconnect.Code.{DisconnReasonCode}
use mymq.V5.Disconnect.Props.{DisconnProperties, decode_disconn_props, encode_disconn_props}

pub record Disconnect : Type 0 where
  pub code : DisconnReasonCode
  pub properties : Option DisconnProperties

-- The match on the length of the packet.
unfoldable pub decode_rest : ℕ → List ℕ → ℕ → Result (Disconnect × ℕ)
unfolding dec_field U8.decode Code.try_from dec_props decode_disconn_props
decode_rest remaining_len stream n =
    if remaining_len == 0
    then ok (record { code = Code.normal_disconnect; properties = none }, n)
    else (dec_field U8.decode stream n >>= λ (val, m). Code.try_from val >>= λ code.
        if ltb remaining_len 2
        then ok (record { code = code; properties = none }, m)
        else (dec_props decode_disconn_props stream m >>= λ (properties, r).
            ok (record { code = code; properties = properties }, r)))

unfoldable pub decode : Decoder Disconnect
unfolding dec_field Header.decode Header.validate decode_rest
decode stream = do
  (fh, n) ← dec_field Header.decode stream 0
  _ ← Header.validate fh
  decode_rest fh.remaining_len stream n

unfoldable pub encode : Disconnect → Result Blob
unfolding U8.encode Code.to_u8 enc_opt_props encode_disconn_props close_packet Header.new as_ref
encode packet = do
  code_blob ← U8.encode (Code.to_u8 packet.code)
  props_blob ← enc_opt_props encode_disconn_props packet.properties
  close_packet (Header.new PacketType.disconnect) (as_ref code_blob ++ as_ref props_blob)
