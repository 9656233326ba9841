-- ===== src/Shardctrler/Types.antt =====
-- shardctrler/common.go, and the `Op` of shardctrler/server.go. Identifiers and times are natural
-- numbers; the desired number of a query may be negative.
use dist_kv_raft.Common.{ℕ, ℤ, Bool, List, String, Dict}

abbrev pub n_shards : ℕ
n_shards = 10

-- `groups` maps a group to its servers, `shards` a shard to its group.
pub record Config : Type 0 where
  pub num : ℕ
  pub shards : List ℕ
  pub groups : Dict ℕ (List String)

pub record JoinArgs : Type 0 where
  pub servers : Dict ℕ (List String)
  pub client_id : ℕ
  pub time_stamp : ℕ

pub record LeaveArgs : Type 0 where
  pub gids : List ℕ
  pub client_id : ℕ
  pub time_stamp : ℕ

pub record MoveArgs : Type 0 where
  pub shard : ℕ
  pub gid : ℕ
  pub client_id : ℕ
  pub time_stamp : ℕ

pub record QueryArgs : Type 0 where
  pub num : ℤ
  pub client_id : ℕ
  pub time_stamp : ℕ

-- The replies to Join, Leave and Move, which have the same fields.
pub record Ack : Type 0 where
  pub wrong_leader : Bool
  pub err : String

pub record QueryReply : Type 0 where
  pub wrong_leader : Bool
  pub err : String
  pub config : Config

pub record Op : Type 0 where
  pub command : String
  pub args_join : Dict ℕ (List String)
  pub args_leave : List ℕ
  pub args_move_shard : ℕ
  pub args_move_gid : ℕ
  pub args_query : ℤ
  pub reply_query : Config
  pub client_id : ℕ
  pub time_stamp : ℕ
