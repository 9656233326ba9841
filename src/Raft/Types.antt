-- ===== src/Raft/Types.antt =====
-- raft/raft.go: the messages on the apply channel, the log entries and the states of a peer. The
-- type of commands, `interface{}` in the source, is a parameter.
use dist_kv_raft.Common.{ℕ, Bool, Option, Bytes}

-- `command` is `none` where a type assertion to the service's own command type would fail.
pub record ApplyMsg (C : Type 0) : Type 0 where
  pub command_valid : Bool
  pub command : Option C
  pub command_index : ℕ
  pub snapshot_valid : Bool
  pub snapshot : Bytes
  pub snapshot_term : ℕ
  pub snapshot_index : ℕ

-- `command` is `none` for nil.
pub record LogEntry (C : Type 0) : Type 0 where
  pub term : ℕ
  pub command : Option C

pub data State : Type 0 where
  leader : State
  candidate : State
  follower : State

pub record InstallSnapshotArgs : Type 0 where
  pub term : ℕ
  pub leader_id : ℕ
  pub last_include_index : ℕ
  pub last_include_term : ℕ
  pub data_bytes : Bytes

pub record RequestVoteArgs : Type 0 where
  pub term : ℕ
  pub candidate_id : ℕ
  pub last_log_index : ℕ
  pub last_log_term : ℕ
