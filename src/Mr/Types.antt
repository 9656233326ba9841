-- ===== src/Mr/Types.antt =====
-- mr/rpc.go, and the `KeyValue` of mr/worker.go. Identifiers are natural numbers, but for the
-- reduce task that a reply names, which is -1 while the map phase is not over.
use dist_kv_raft.Common.{ℕ, ℤ, Bytes, List}

pub record KeyValue : Type 0 where
  pub key : Bytes
  pub value : Bytes

pub record WorkerArgs : Type 0 where
  pub worker_id : ℕ
  pub worker_addr : Bytes

pub record MapArgs : Type 0 where
  pub n_reduce : ℕ
  pub filename : Bytes
  pub maptask_id : ℕ
  pub worker_id : ℕ

pub record MapReply : Type 0 where
  pub n_reduce : ℕ
  pub filename : Bytes
  pub maptask_id : ℕ

pub record ReduceArgs : Type 0 where
  pub reducetask_id : ℕ
  pub reducefiles : List Bytes
  pub worker_id : ℕ

pub record ReduceReply : Type 0 where
  pub reducetask_id : ℤ
  pub reducefiles : List Bytes
