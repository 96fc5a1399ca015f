-- ===== src/Types/Protocol.antt =====
-- `MqttProtocol` and `ClientID` of types.rs
use mymq.Base.{ℕ, ◌≡◌, refl, ◌==◌, if◌then◌else◌, length, some}
use mymq.Error.{Error, ErrorKind, ReasonCode, Result, ok, err}
use mymq.Types.Utf8.{Str, utf8}

pub data MqttProtocol : Type 0 where
  v4 v5 : MqttProtocol

abbrev pub unknown_version : Error
unknown_version = record {
  kind = ErrorKind.malformed_packet;
  code = some ReasonCode.unsupported_protocol_version;
}

unfoldable pub try_from : ℕ → Result MqttProtocol
try_from val = if val == 4 then ok v4 else if val == 5 then ok v5 else err unknown_version

unfoldable pub to_u8 : MqttProtocol → ℕ
to_u8 v4 = 4
to_u8 v5 = 5

abbrev pub ClientId : Type 0
ClientId = Str

-- `ClientID::from_connect`; a UUID is made by a library, and stands for an empty name.
unfoldable pub from_connect : Str → ClientId → ClientId
from_connect uuid client_id = if length (utf8 client_id) == 0 then uuid else client_id

pub try_from-to_u8 : (version : MqttProtocol) → try_from (to_u8 version) ≡ ok version
unfolding try_from to_u8
try_from-to_u8 v4 = refl
try_from-to_u8 v5 = refl
