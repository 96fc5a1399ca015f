-- ===== src/V5/Frame/Received.antt =====
-- A packet as the reader hands it on: a valid header, and as many bytes as it says.
use mymq.Base.{ℕ, ◌+◌, ◌≤◌, Bool, List, length, ◌≡◌}
use mymq.Error.{ok}
use mymq.Types.Blob.{dec_field}
use mymq.V5.Qos.{Qos}
use mymq.V5.PacketType.{PacketType}
use mymq.V5.Header
use mymq.V5.Header.{FixedHeader}

pub record Received (t : PacketType) (stream : List ℕ) : Type 0 where
  pub fh : FixedHeader
  pub fh_len : ℕ
  pub retain : Bool
  pub qos : Qos
  pub dup : Bool
  pub head : dec_field Header.decode stream 0 ≡ ok (fh, fh_len)
  pub valid : Header.validate fh ≡ ok tt
  pub parts : Header.unwrap fh ≡ ok (t, retain, qos, dup)
  pub le : fh_len ≤ length stream
  pub total : fh_len + fh.remaining_len ≡ length stream
