-- ===== src/Lib.antt =====
-- mymq, an MQTT version 5 broker: its codecs, its tries of topics, and its timer.
--
-- The broker reads packets off sockets, keeps sessions in shards, and routes each PUBLISH to the
-- sessions whose subscriptions match its topic name. The parts modelled here, with their files:
--
-- - `src/types.rs`, `src/util.rs` (`Packetize` for the scalar types, topic names and filters):
--   `Types`. A byte slice is a list of numbers; a decoder takes the slice and returns the value and
--   the count of bytes taken. A string is the list of its code points, `utf8` its bytes.
-- - `src/error.rs`: `Error` has the kinds, the reason codes and the result type, in which a panic
--   (`unreachable!`, `unwrap`, `assert!`) is a value of its own; `ReasonCode` has the numbers.
-- - `src/v5/mod.rs` (`PacketType`, `QoS`, `FixedHeader`, `Property`, `PayloadFormat`, `Subscription`,
--   `Packet`): `V5`, where `V5.Frame` has what the packets share (the macros `dec_field!`,
--   `dec_props!` and `enc_prop!`, the loop over properties, `insert_fixed_header`), `V5.Payload` the
--   payload behind the properties and its entries, and `V5.Packet` the dispatch on the packet type.
-- - `src/v5/connect.rs`, `connack.rs`, `publish.rs`, `pubaclc.rs`, `sub.rs`, `suback.rs`, `unsub.rs`,
--   `unsuback.rs`, `ping.rs`, `disconnect.rs`, `auth.rs`: the modules of `V5` with the name of the
--   packet. In each, `Props` has the properties, `Code` the reason codes, `RoundTrip` that the packet
--   reads back as it was written, and `Safe` that its decoder does not panic.
-- - `src/packet.rs` (`MQTTRead` with `parse`, `MQTTWrite`): `Packet`. A socket is the list of what
--   will arrive, or of the room that there will be; a read or write takes it and returns what is
--   left of it.
-- - `src/timer.rs` (`Timer`, `Titem`): `Timer`. The clock is an argument, in microseconds.
-- - `src/broker/ttrie.rs`: `Broker.TTrie` has the nodes (`Node::sub`, `unsub`, `set`, `remove`,
--   `match_topic` under the same names), `Broker.Tries` the two tries with their statistics, whose
--   operations take the value behind the lock and return the next one; `Broker.Tries.Races` splits
--   them where the code drops the lock. `Broker.Tries.Registry` is the abstract view.
--
-- The vectors of a trie node are searched with `binary_search`; the model scans for the first
-- element that is not less, which is the same place in a sorted vector without duplicates, and the
-- invariant `IsTrie` says that the vectors are such. `Arc` and copy-on-write are not seen: a node
-- is a value. `u8`, `u16`, `u32` and `usize` are natural numbers with the wrap-around or saturation
-- written out. `VarU32::decode` runs its loop at most four times, as the source does, so the count
-- of rounds is no bound of the model. `Packet.Reader.Rounds.rounds` reads as often as its argument
-- says, as a connection does in its loop. `V5.Frame.props_loop` has more rounds than there are bytes
-- up to its limit, and `V5.Payload.entries_loop` more than there are bytes in the payload.
--
-- Not modelled: sockets, threads, polling, configuration, logging, the client, `send_disconnect`,
-- the accessors of packets that put a default for a missing property, and the sessions and shards
-- above the packets. A UUID is made by a library, and is an argument of `from_connect`.
pub mod Base
pub mod Error
pub mod Types
pub mod Timer
pub mod Broker
pub mod V5
pub mod Packet
pub mod ReasonCode
pub mod Examples
