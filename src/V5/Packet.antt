-- ===== src/V5/Packet.antt =====
-- `Packet` of v5/mod.rs: any packet, by the type in its header.
pub mod Dispatch
pub mod Safe
pub mod RoundTrip
use mymq.Base.{ℕ}
use mymq.Error.{Result, ok, ◌>>=◌}
use mymq.Types.Blob.{Blob, Decoder}
use mymq.V5.PacketType
use mymq.V5.PacketType.{PacketType}
use mymq.V5.Header
use mymq.V5.Connect
use mymq.V5.Connect.{Connect}
use mymq.V5.ConnAck
use mymq.V5.ConnAck.{ConnAck}
use mymq.V5.Publish
use mymq.V5.Publish.{Publish}
use mymq.V5.PubAck
use mymq.V5.PubAck.{Pub}
use mymq.V5.Subscribe
use mymq.V5.Subscribe.{Subscribe}
use mymq.V5.SubAck
use mymq.V5.SubAck.{SubAck}
use mymq.V5.UnSubscribe
use mymq.V5.UnSubscribe.{UnSubscribe}
use mymq.V5.UnsubAck
use mymq.V5.UnsubAck.{UnsubAck}
use mymq.V5.Ping
use mymq.V5.Disconnect
use mymq.V5.Disconnect.{Disconnect}
use mymq.V5.Auth
use mymq.V5.Auth.{Auth}

pub data Packet : Type 0 where
  connect : Connect → Packet
  conn_ack : ConnAck → Packet
  publish : Publish → Packet
  pub_ack : Pub → Packet
  pub_rec : Pub → Packet
  pub_rel : Pub → Packet
  pub_comp : Pub → Packet
  subscribe : Subscribe → Packet
  sub_ack : SubAck → Packet
  un_subscribe : UnSubscribe → Packet
  unsub_ack : UnsubAck → Packet
  ping_req : Packet
  ping_resp : Packet
  disconnect : Disconnect → Packet
  auth : Auth → Packet

unfoldable pub to_packet_type : Packet → PacketType
to_packet_type (connect packet) = PacketType.connect
to_packet_type (conn_ack packet) = PacketType.conn_ack
to_packet_type (publish packet) = PacketType.publish
to_packet_type (pub_ack packet) = PacketType.pub_ack
to_packet_type (pub_rec packet) = PacketType.pub_rec
to_packet_type (pub_rel packet) = PacketType.pub_rel
to_packet_type (pub_comp packet) = PacketType.pub_comp
to_packet_type (subscribe packet) = PacketType.subscribe
to_packet_type (sub_ack packet) = PacketType.sub_ack
to_packet_type (un_subscribe packet) = PacketType.un_subscribe
to_packet_type (unsub_ack packet) = PacketType.unsub_ack
to_packet_type ping_req = PacketType.ping_req
to_packet_type ping_resp = PacketType.ping_resp
to_packet_type (disconnect packet) = PacketType.disconnect
to_packet_type (auth packet) = PacketType.auth

-- An arm of `decode`: the packet is decoded from the same stream, and wrapped.
unfoldable pub wrap : {A : Type 0} → (A → Packet) → Decoder A → Decoder Packet
wrap make dec stream = do (packet, n) ← dec stream; ok (make packet, n)

unfoldable pub decode_as : PacketType → Decoder Packet
unfolding wrap
decode_as PacketType.connect stream = wrap connect Connect.decode stream
decode_as PacketType.conn_ack stream = wrap conn_ack ConnAck.decode stream
decode_as PacketType.publish stream = wrap publish Publish.decode stream
decode_as PacketType.pub_ack stream = wrap pub_ack PubAck.decode stream
decode_as PacketType.pub_rec stream = wrap pub_rec PubAck.decode stream
decode_as PacketType.pub_rel stream = wrap pub_rel PubAck.decode stream
decode_as PacketType.pub_comp stream = wrap pub_comp PubAck.decode stream
decode_as PacketType.subscribe stream = wrap subscribe Subscribe.decode stream
decode_as PacketType.sub_ack stream = wrap sub_ack SubAck.decode stream
decode_as PacketType.un_subscribe stream = wrap un_subscribe UnSubscribe.decode stream
decode_as PacketType.unsub_ack stream = wrap unsub_ack UnsubAck.decode stream
decode_as PacketType.ping_req stream = wrap (λ u. ping_req) Ping.decode stream
decode_as PacketType.ping_resp stream = wrap (λ u. ping_resp) Ping.decode stream
decode_as PacketType.disconnect stream = wrap disconnect Disconnect.decode stream
decode_as PacketType.auth stream = wrap auth Auth.decode stream

unfoldable pub decode : Decoder Packet
decode stream = do
  (fh, n) ← Header.decode stream
  (packet_type, retain, qos, dup) ← Header.unwrap fh
  decode_as packet_type stream

unfoldable pub encode : Packet → Result Blob
encode (connect packet) = Connect.encode packet
encode (conn_ack packet) = ConnAck.encode packet
encode (publish packet) = Publish.encode packet
encode (pub_ack packet) = PubAck.encode packet
encode (pub_rec packet) = PubAck.encode packet
encode (pub_rel packet) = PubAck.encode packet
encode (pub_comp packet) = PubAck.encode packet
encode (subscribe packet) = Subscribe.encode packet
encode (sub_ack packet) = SubAck.encode packet
encode (un_subscribe packet) = UnSubscribe.encode packet
encode (unsub_ack packet) = UnsubAck.encode packet
encode ping_req = Ping.encode PacketType.ping_req
encode ping_resp = Ping.encode PacketType.ping_resp
encode (disconnect packet) = Disconnect.encode packet
encode (auth packet) = Auth.encode packet
