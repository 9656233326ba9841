-- ===== src/Shardkv/Types.antt =====
-- shardkv/common.go, and the types of shardkv/server.go. Keys and values are Go strings, so bytes;
-- identifiers and times are natural numbers.
use dist_kv_raft.Common.{ℕ, List, String, Bytes, Dict}
use dist_kv_raft.Shardctrler.Types.{Config}

-- The values of `Err`.
pub data Err : Type 0 where
  ok : Err
  err_no_key : Err
  err_wrong_group : Err
  err_wrong_leader : Err
  err_wrong_version : Err
  err_not_ready : Err

pub record PutAppendArgs : Type 0 where
  pub key : Bytes
  pub value : Bytes
  pub op : String
  pub client_id : ℕ
  pub time_stamp : ℕ

pub record PutAppendReply : Type 0 where
  pub config : Config
  pub err : Err

pub record GetArgs : Type 0 where
  pub key : Bytes
  pub client_id : ℕ
  pub time_stamp : ℕ

pub record GetReply : Type 0 where
  pub err : Err
  pub value : Bytes

pub record Op : Type 0 where
  pub op : String
  pub key : Bytes
  pub value : Bytes
  pub client_id : ℕ
  pub time_stamp : ℕ
  pub config : Config
  pub shard_id : ℕ
  pub config_num : ℕ
  pub shard_ids : List ℕ
  pub shard_data : List (Dict Bytes Bytes)
  pub ack : Dict ℕ ℕ
