-- ===== src/V5/Packet/RoundTrip.antt =====
-- Any packet is read back as it was written.
use mathlib.Core.Path.{subst}
use mymq.Base.{ℕ, List, ◌++◌, ◌≡◌, refl, ◌∙◌}
use mymq.Error.{Result}
use mymq.Types.Blob.{Blob, as_ref, Decoder}
use mymq.Types.Written.{Written}
use mymq.V5.PacketType.{PacketType}
use mymq.V5.Frame.Whole.{Framed}
use mymq.V5.SubAck
use mymq.V5.SubAck.Code as SubAckCode
use mymq.V5.UnsubAck
use mymq.V5.UnsubAck.Code as UnsubAckCode
use mymq.V5.CodesAck.RoundTrip.{IsCodesAck, codes_ack-Framed}
use mymq.V5.Ping.RoundTrip.{ping-Framed}
use mymq.V5.PubAck
use mymq.V5.PubAck.{Pub}
use mymq.V5.PubAck.RoundTrip.{IsPub, encode_pub-Framed}
use mymq.V5.Connect.RoundTrip.{IsConnect, connect-Framed}
use mymq.V5.ConnAck.RoundTrip.{IsConnAck, connack-Framed}
use mymq.V5.Publish.RoundTrip.{IsPublish, publish-Framed}
use mymq.V5.Subscribe.RoundTrip.{IsSubscribe, subscribe-Framed}
use mymq.V5.UnSubscribe.RoundTrip.{IsUnSubscribe, unsubscribe-Framed}
use mymq.V5.Disconnect.RoundTrip.{IsDisconnect, disconnect-Framed}
use mymq.V5.Auth.RoundTrip.{IsAuth, auth-Framed}
use mymq.V5.Packet.{Packet, wrap, decode_as, decode, encode}

-- What each packet must be to be written and read back; an acknowledgement has the type of its arm.
abbrev pub IsPacket : Packet → Type 0
IsPacket (Packet.connect packet) = IsConnect packet
IsPacket (Packet.conn_ack packet) = IsConnAck packet
IsPacket (Packet.publish packet) = IsPublish packet
IsPacket (Packet.pub_ack packet) = IsPub packet × (packet.packet_type ≡ PacketType.pub_ack)
IsPacket (Packet.pub_rec packet) = IsPub packet × (packet.packet_type ≡ PacketType.pub_rec)
IsPacket (Packet.pub_rel packet) = IsPub packet × (packet.packet_type ≡ PacketType.pub_rel)
IsPacket (Packet.pub_comp packet) = IsPub packet × (packet.packet_type ≡ PacketType.pub_comp)
IsPacket (Packet.subscribe packet) = IsSubscribe packet
IsPacket (Packet.sub_ack packet) = IsCodesAck packet
IsPacket (Packet.un_subscribe packet) = IsUnSubscribe packet
IsPacket (Packet.unsub_ack packet) = IsCodesAck packet
IsPacket Packet.ping_req = Unit
IsPacket Packet.ping_resp = Unit
IsPacket (Packet.disconnect packet) = IsDisconnect packet
IsPacket (Packet.auth packet) = IsAuth packet

-- A packet of its own type that is framed is so as any packet.
arm :
    {A : Type 0} {enc : A → Result Blob} {dec : Decoder A} {t : PacketType} {v : A}
    (make : A → Packet)
    → Framed enc dec t v
    → encode (make v) ≡ enc v
    → ((stream : List ℕ) → decode_as t stream ≡ wrap make dec stream)
    → Written encode decode (make v)
arm make f same dispatch = record {
  blob = f.written.blob;
  writes = same ∙ f.written.writes;
  reads = record {
    at = λ rest.
        let (n, e) = f.head rest in
        let all = as_ref f.written.blob ++ rest in
        unfold decode wrap in rw (e, f.parts_of, dispatch all, f.written.reads.at rest) refl;
  };
}

ack-Framed :
    (packet : Pub) (t : PacketType)
    → IsPub packet
    → packet.packet_type ≡ t
    → Framed PubAck.encode PubAck.decode t packet
ack-Framed packet t h e =
    subst (λ t. Framed PubAck.encode PubAck.decode t packet) e (encode_pub-Framed packet h)

-- Any packet that is valid is written, and is read back off any stream that begins with what was
-- written, which is all that is taken.
pub packet-Written : (packet : Packet) → IsPacket packet → Written encode decode packet
unfolding encode decode_as
packet-Written (Packet.connect packet) h =
    arm Packet.connect (connect-Framed packet h) refl (λ stream. refl)
packet-Written (Packet.conn_ack packet) h =
    arm Packet.conn_ack (connack-Framed packet h) refl (λ stream. refl)
packet-Written (Packet.publish packet) h =
    arm Packet.publish (publish-Framed packet h) refl (λ stream. refl)
packet-Written (Packet.pub_ack packet) h =
    arm Packet.pub_ack (ack-Framed packet _ h.0 h.1) refl (λ stream. refl)
packet-Written (Packet.pub_rec packet) h =
    arm Packet.pub_rec (ack-Framed packet _ h.0 h.1) refl (λ stream. refl)
packet-Written (Packet.pub_rel packet) h =
    arm Packet.pub_rel (ack-Framed packet _ h.0 h.1) refl (λ stream. refl)
packet-Written (Packet.pub_comp packet) h =
    arm Packet.pub_comp (ack-Framed packet _ h.0 h.1) refl (λ stream. refl)
packet-Written (Packet.subscribe packet) h =
    arm Packet.subscribe (subscribe-Framed packet h) refl (λ stream. refl)
packet-Written (Packet.sub_ack packet) h =
    arm Packet.sub_ack
      (codes_ack-Framed PacketType.sub_ack SubAckCode.try_from SubAckCode.to_u8
        SubAckCode.try_from-to_u8 packet h)
      (unfold SubAck.encode in refl) (λ stream. unfold SubAck.decode in refl)
packet-Written (Packet.un_subscribe packet) h =
    arm Packet.un_subscribe (unsubscribe-Framed packet h) refl (λ stream. refl)
packet-Written (Packet.unsub_ack packet) h =
    arm Packet.unsub_ack
      (codes_ack-Framed PacketType.unsub_ack UnsubAckCode.try_from UnsubAckCode.to_u8
        UnsubAckCode.try_from-to_u8 packet h)
      (unfold UnsubAck.encode in refl) (λ stream. unfold UnsubAck.decode in refl)
packet-Written Packet.ping_req h =
    arm (λ u. Packet.ping_req) (ping-Framed PacketType.ping_req) refl (λ stream. refl)
packet-Written Packet.ping_resp h =
    arm (λ u. Packet.ping_resp) (ping-Framed PacketType.ping_resp) refl (λ stream. refl)
packet-Written (Packet.disconnect packet) h =
    arm Packet.disconnect (disconnect-Framed packet h) refl (λ stream. refl)
packet-Written (Packet.auth packet) h = arm Packet.auth (auth-Framed packet h) refl (λ stream. refl)
