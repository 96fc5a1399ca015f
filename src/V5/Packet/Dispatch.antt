-- ===== src/V5/Packet/Dispatch.antt =====
-- `Packet::decode` gives a packet of the type in the header.
use mymq.Base.{ℕ, Bool, List, ◌≡◌, refl}
use mymq.Error.{ok, first_step}
use mymq.Types.Blob.{Decoder}
use mymq.V5.Qos.{Qos}
use mymq.V5.PacketType.{PacketType}
use mymq.V5.Header
use mymq.V5.Header.{FixedHeader}
use mymq.V5.Auth
use mymq.V5.ConnAck
use mymq.V5.Connect
use mymq.V5.Disconnect
use mymq.V5.Ping
use mymq.V5.PubAck
use mymq.V5.Publish
use mymq.V5.SubAck
use mymq.V5.Subscribe
use mymq.V5.UnSubscribe
use mymq.V5.UnsubAck
use mymq.V5.Packet.{Packet, to_packet_type, wrap, decode_as, decode}

wrap_type :
    {A : Type 0} {packet : Packet} {n : ℕ} {t : PacketType} (make : A → Packet) (dec : Decoder A)
    (stream : List ℕ)
    → ((v : A) → to_packet_type (make v) ≡ t)
    → wrap make dec stream ≡ ok (packet, n)
    → to_packet_type packet ≡ t
unfolding wrap
wrap_type make dec stream same e =
    let (pair, e', d) = first_step (dec stream) e in
    let made : make pair.0 ≡ _ = cc in rw made at (same pair.0)

decode_as-type :
    (t : PacketType) (stream : List ℕ) (packet : Packet) (n : ℕ)
    → decode_as t stream ≡ ok (packet, n)
    → to_packet_type packet ≡ t
unfolding decode_as to_packet_type
decode_as-type PacketType.connect stream packet n e =
    wrap_type Packet.connect Connect.decode stream (λ v. refl) e
decode_as-type PacketType.conn_ack stream packet n e =
    wrap_type Packet.conn_ack ConnAck.decode stream (λ v. refl) e
decode_as-type PacketType.publish stream packet n e =
    wrap_type Packet.publish Publish.decode stream (λ v. refl) e
decode_as-type PacketType.pub_ack stream packet n e =
    wrap_type Packet.pub_ack PubAck.decode stream (λ v. refl) e
decode_as-type PacketType.pub_rec stream packet n e =
    wrap_type Packet.pub_rec PubAck.decode stream (λ v. refl) e
decode_as-type PacketType.pub_rel stream packet n e =
    wrap_type Packet.pub_rel PubAck.decode stream (λ v. refl) e
decode_as-type PacketType.pub_comp stream packet n e =
    wrap_type Packet.pub_comp PubAck.decode stream (λ v. refl) e
decode_as-type PacketType.subscribe stream packet n e =
    wrap_type Packet.subscribe Subscribe.decode stream (λ v. refl) e
decode_as-type PacketType.sub_ack stream packet n e =
    wrap_type Packet.sub_ack SubAck.decode stream (λ v. refl) e
decode_as-type PacketType.un_subscribe stream packet n e =
    wrap_type Packet.un_subscribe UnSubscribe.decode stream (λ v. refl) e
decode_as-type PacketType.unsub_ack stream packet n e =
    wrap_type Packet.unsub_ack UnsubAck.decode stream (λ v. refl) e
decode_as-type PacketType.ping_req stream packet n e =
    wrap_type (λ u. Packet.ping_req) Ping.decode stream (λ v. refl) e
decode_as-type PacketType.ping_resp stream packet n e =
    wrap_type (λ u. Packet.ping_resp) Ping.decode stream (λ v. refl) e
decode_as-type PacketType.disconnect stream packet n e =
    wrap_type Packet.disconnect Disconnect.decode stream (λ v. refl) e
decode_as-type PacketType.auth stream packet n e =
    wrap_type Packet.auth Auth.decode stream (λ v. refl) e

-- A packet that is decoded is of the type that the header of the stream says.
pub decode-type :
    (stream : List ℕ) (packet : Packet) (n : ℕ)
    → decode stream ≡ ok (packet, n)
    → (fh : FixedHeader) × (taken : ℕ) × (retain : Bool) × (qos : Qos) × (dup : Bool)
      × (Header.decode stream ≡ ok (fh, taken))
      × (Header.unwrap fh ≡ ok (to_packet_type packet, retain, qos, dup))
unfolding decode
decode-type stream packet n e =
    let ((fh, taken), e1, d1) = first_step (Header.decode stream) e in
    let ((t, retain, qos, dup), e2, d2) = first_step (Header.unwrap fh) e1 in
    (fh, taken, retain, qos, dup, d1, rw (decode_as-type t stream packet n e2) d2)
