-- ===== src/V5/Packet/Safe.antt =====
-- No packet makes its decoder panic.
use mymq.Base.{ℕ, List, ◌≡◌, refl, inl, inr, arith}
use mymq.Error.{Error, err}
use mymq.Error.Ensures.{NoPanic, NoPanic-bind}
use mymq.Types.Blob.{Decoder, dec_field}
use mymq.V5.PacketType.{PacketType}
use mymq.V5.Header
use mymq.V5.Frame.Received.{Received}
use mymq.V5.Connect
use mymq.V5.Connect.Safe as ConnectSafe
use mymq.V5.ConnAck
use mymq.V5.ConnAck.Safe as ConnAckSafe
use mymq.V5.Publish
use mymq.V5.Publish.Safe as PublishSafe
use mymq.V5.PubAck
use mymq.V5.PubAck.Safe as PubAckSafe
use mymq.V5.Subscribe
use mymq.V5.Subscribe.Safe as SubscribeSafe
use mymq.V5.CodesAck
use mymq.V5.CodesAck.Safe as CodesAckSafe
use mymq.V5.SubAck
use mymq.V5.SubAck.Code as SubAckCode
use mymq.V5.UnSubscribe
use mymq.V5.UnSubscribe.Safe as UnSubscribeSafe
use mymq.V5.UnsubAck
use mymq.V5.UnsubAck.Code as UnsubAckCode
use mymq.V5.Ping
use mymq.V5.Ping.Safe as PingSafe
use mymq.V5.Disconnect
use mymq.V5.Disconnect.Safe as DisconnectSafe
use mymq.V5.Auth
use mymq.V5.Auth.Safe as AuthSafe
use mymq.V5.Packet.{Packet, wrap, decode_as}

wrap-NoPanic :
    {A : Type 0} (make : A → Packet) (dec : Decoder A) (stream : List ℕ)
    → NoPanic (dec stream)
    → NoPanic (wrap make dec stream)
unfolding wrap
wrap-NoPanic make dec stream safe = NoPanic-bind _ (dec stream) _ safe (λ (val, n) e. tt)

sub_code : (val : ℕ) → NoPanic (SubAckCode.try_from val)
unfolding SubAckCode.try_from
sub_code val = ground arith

unsub_code : (val : ℕ) → NoPanic (UnsubAckCode.try_from val)
unfolding UnsubAckCode.try_from
unsub_code val = ground arith

-- A whole packet with a valid header is read, or is refused by an error.
pub decode_as-NoPanic :
    (t : PacketType) (stream : List ℕ) → Received t stream → NoPanic (decode_as t stream)
unfolding decode_as
decode_as-NoPanic PacketType.connect stream r =
    wrap-NoPanic Packet.connect Connect.decode stream (ConnectSafe.decode-NoPanic stream r)
decode_as-NoPanic PacketType.conn_ack stream r =
    wrap-NoPanic Packet.conn_ack ConnAck.decode stream (ConnAckSafe.decode-NoPanic stream r)
decode_as-NoPanic PacketType.publish stream r =
    wrap-NoPanic Packet.publish Publish.decode stream (PublishSafe.decode-NoPanic stream r)
decode_as-NoPanic PacketType.pub_ack stream r =
    wrap-NoPanic Packet.pub_ack PubAck.decode stream
      (PubAckSafe.decode-NoPanic _ stream (inl refl) r)
decode_as-NoPanic PacketType.pub_rec stream r =
    wrap-NoPanic Packet.pub_rec PubAck.decode stream
      (PubAckSafe.decode-NoPanic _ stream (inr (inl refl)) r)
decode_as-NoPanic PacketType.pub_rel stream r =
    wrap-NoPanic Packet.pub_rel PubAck.decode stream
      (PubAckSafe.decode-NoPanic _ stream (inr (inr (inl refl))) r)
decode_as-NoPanic PacketType.pub_comp stream r =
    wrap-NoPanic Packet.pub_comp PubAck.decode stream
      (PubAckSafe.decode-NoPanic _ stream (inr (inr (inr refl))) r)
decode_as-NoPanic PacketType.subscribe stream r =
    wrap-NoPanic Packet.subscribe Subscribe.decode stream (SubscribeSafe.decode-NoPanic stream r)
decode_as-NoPanic PacketType.sub_ack stream r =
    wrap-NoPanic Packet.sub_ack SubAck.decode stream
      (unfold SubAck.decode in CodesAckSafe.decode-NoPanic SubAckCode.try_from _ stream sub_code r)
decode_as-NoPanic PacketType.un_subscribe stream r =
    wrap-NoPanic Packet.un_subscribe UnSubscribe.decode stream
      (UnSubscribeSafe.decode-NoPanic stream r)
decode_as-NoPanic PacketType.unsub_ack stream r =
    wrap-NoPanic Packet.unsub_ack UnsubAck.decode stream (
      unfold UnsubAck.decode in
      CodesAckSafe.decode-NoPanic UnsubAckCode.try_from _ stream unsub_code r)
decode_as-NoPanic PacketType.ping_req stream r =
    wrap-NoPanic (λ u. Packet.ping_req) Ping.decode stream (PingSafe.decode-NoPanic _ stream r)
decode_as-NoPanic PacketType.ping_resp stream r =
    wrap-NoPanic (λ u. Packet.ping_resp) Ping.decode stream (PingSafe.decode-NoPanic _ stream r)
decode_as-NoPanic PacketType.disconnect stream r =
    wrap-NoPanic Packet.disconnect Disconnect.decode stream (DisconnectSafe.decode-NoPanic stream r)
decode_as-NoPanic PacketType.auth stream r =
    wrap-NoPanic Packet.auth Auth.decode stream (AuthSafe.decode-NoPanic stream r)

-- Every decoder refuses a header that is refused.
pub decode_as-refused :
    (t : PacketType) (stream : List ℕ) (failure : Error)
    → dec_field Header.decode stream 0 ≡ err failure
    → decode_as t stream ≡ err failure
unfolding decode_as wrap
decode_as-refused PacketType.connect stream failure e = unfold Connect.decode in rw e refl
decode_as-refused PacketType.conn_ack stream failure e = unfold ConnAck.decode in rw e refl
decode_as-refused PacketType.publish stream failure e = unfold Publish.decode in rw e refl
decode_as-refused PacketType.pub_ack stream failure e = unfold PubAck.decode in rw e refl
decode_as-refused PacketType.pub_rec stream failure e = unfold PubAck.decode in rw e refl
decode_as-refused PacketType.pub_rel stream failure e = unfold PubAck.decode in rw e refl
decode_as-refused PacketType.pub_comp stream failure e = unfold PubAck.decode in rw e refl
decode_as-refused PacketType.subscribe stream failure e = unfold Subscribe.decode in rw e refl
decode_as-refused PacketType.sub_ack stream failure e =
    unfold SubAck.decode CodesAck.decode in rw e refl
decode_as-refused PacketType.un_subscribe stream failure e = unfold UnSubscribe.decode in rw e refl
decode_as-refused PacketType.unsub_ack stream failure e =
    unfold UnsubAck.decode CodesAck.decode in rw e refl
decode_as-refused PacketType.ping_req stream failure e = unfold Ping.decode in rw e refl
decode_as-refused PacketType.ping_resp stream failure e = unfold Ping.decode in rw e refl
decode_as-refused PacketType.disconnect stream failure e = unfold Disconnect.decode in rw e refl
decode_as-refused PacketType.auth stream failure e = unfold Auth.decode in rw e refl
