-- ===== src/Broker.antt =====
-- src/broker: what the broker is made of.
pub mod TTrie
pub mod Tries
