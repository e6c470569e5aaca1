-- ===== src/Raft/State.antt =====
-- raftCore/include/raft.h, raftCore/include/ApplyMsg.h and the messages of raftRpcPro/raftRPC.proto.
-- An `int` that the program keeps at or above 0 is a number; -1 in `m_votedFor` is `none`.
use rpc_storage_cpp.Common.{ℕ, Bool, Option, List, Bytes}
use rpc_storage_cpp.Persister.{Persister}

-- `raftRpcProctoc::LogEntry`.
pub record LogEntry : Type 0 where
  pub command : Bytes
  pub log_term : ℕ
  pub log_index : ℕ

-- `Raft::Status`.
pub data Status : Type 0 where
  follower candidate leader : Status

-- `Raft::BoostPersistRaftNode`: what is written to stable storage. The program encodes each entry by
-- protobuf before boost archives the whole; `Archive` stands for both.
pub record BoostPersistRaftNode : Type 0 where
  pub current_term : ℕ
  pub voted_for : Option ℕ
  pub last_snapshot_include_index : ℕ
  pub last_snapshot_include_term : ℕ
  pub logs : List LogEntry

-- Boost's text archives and the protobuf encoding of an entry, which are not part of the program.
pub record Archive : Type 0 where
  pub archive : BoostPersistRaftNode → Bytes
  pub restore : Bytes → BoostPersistRaftNode

-- The fields of class `Raft`. `peers` is `m_peers.size()`.
pub record Raft : Type 0 where
  pub boost : Archive
  pub persister : Persister
  pub peers : ℕ
  pub me : ℕ
  pub current_term : ℕ
  pub voted_for : Option ℕ
  pub logs : List LogEntry
  pub commit_index : ℕ
  pub last_applied : ℕ
  pub next_index : List ℕ
  pub match_index : List ℕ
  pub status : Status
  pub last_reset_election_time : ℕ
  pub last_reset_hear_beat_time : ℕ
  pub last_snapshot_include_index : ℕ
  pub last_snapshot_include_term : ℕ

-- `ApplyMsg`: one of its two flags is set in every message that the node makes.
pub data ApplyMsg : Type 0 where
  command_msg : (command : Bytes) (command_index : ℕ) → ApplyMsg
  snapshot_msg : (snapshot : Bytes) (snapshot_term snapshot_index : ℕ) → ApplyMsg

pub record RequestVoteArgs : Type 0 where
  pub term : ℕ
  pub candidate_id : ℕ
  pub last_log_index : ℕ
  pub last_log_term : ℕ

-- The constants `Killed`, `Voted`, `Expire` and `Normal`.
pub data VoteState : Type 0 where
  killed voted expire normal : VoteState

pub record RequestVoteReply : Type 0 where
  pub term : ℕ
  pub vote_granted : Bool
  pub vote_state : VoteState

pub record AppendEntriesArgs : Type 0 where
  pub term : ℕ
  pub leader_id : ℕ
  pub prev_log_index : ℕ
  pub prev_log_term : ℕ
  pub entries : List LogEntry
  pub leader_commit : ℕ

-- The constants `Disconnected` and `AppNormal`.
pub data AppState : Type 0 where
  disconnected app_normal : AppState

-- -100 in `updatenextindex` is `none`; a reply that does not set it has 0.
pub record AppendEntriesReply : Type 0 where
  pub term : ℕ
  pub success : Bool
  pub update_next_index : Option ℕ
  pub app_state : AppState

pub record InstallSnapshotRequest : Type 0 where
  pub leader_id : ℕ
  pub term : ℕ
  pub last_snapshot_include_index : ℕ
  pub last_snapshot_include_term : ℕ
  pub snapshot_data : Bytes

-- A response that does not set the term has 0.
pub record InstallSnapshotResponse : Type 0 where
  pub term : ℕ
