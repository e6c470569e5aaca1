-- ===== src/Raft.antt =====
-- The consensus node: raftCore/raft.cpp, include/raft.h, include/ApplyMsg.h.
pub mod State
pub mod Log
pub mod Valid
pub mod Vote
pub mod Append
pub mod Replicate
pub mod Compact
pub mod Apply
pub mod Tickers
pub mod Node
pub mod Start
pub mod Tests
