-- ===== src/V5.antt =====
-- src/v5: the packets of MQTT version 5.
pub mod Qos
pub mod Subscription
pub mod PacketType
pub mod PropertyType
pub mod Header
pub mod Property
pub mod Frame
pub mod AckProps
pub mod Payload
pub mod CodesAck
pub mod Ping
pub mod SubAck
pub mod UnsubAck
pub mod Flag
pub mod Auth
pub mod PayloadFormat
pub mod UnSubscribe
pub mod Subscribe
pub mod Publish
pub mod Disconnect
pub mod ConnAck
pub mod Connect
pub mod PubAck
pub mod Packet
