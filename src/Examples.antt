-- ===== src/Examples.antt =====
-- Concrete runs, one module per part of the program.
mod TrieRuns
mod CodecRuns
mod TimerRuns
mod PacketRuns
mod AckRuns
mod ConnRuns
mod PublishRuns
