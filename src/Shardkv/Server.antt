-- ===== src/Shardkv/Server.antt =====
-- shardkv/server.go: the state of a server, its start, the wait for Raft and the end. The bodies
-- that the source leaves out (the snapshots, `isOpMatched`, the handlers and the apply loop) are
-- parameters or missing.
mod Lives
mod Examples
use dist_kv_raft.Common.{
  ℕ, zero, suc, ◌==◌, nat_eq, if◌then◌else◌, Bool, true, false, Option, none, some, List, [], ◌∷◌,
  String, Bytes, Dict, lookup, insert,
}
use dist_kv_raft.Shardctrler.Types.{Config, n_shards}
use dist_kv_raft.Shardkv.Types.{Op}
use dist_kv_raft.Shardkv.Client.{nrand}

-- The Raft peer, its apply channel and `make_end`, which gives the end of a name, are left out.
-- A channel of `commit_chan` has room for one operation. `raft_dead` is the `dead` of the Raft
-- peer, `shards` is the source's `data`, and `clerk_id` the identifier of the clerk `sm`.
pub record ShardKv : Type 0 where
  pub me : ℕ
  pub dead : ℕ
  pub raft_dead : ℕ
  pub gid : ℕ
  pub ctrlers : List String
  pub maxraftstate : ℕ
  pub commit_chan : Dict ℕ (Option Op)
  pub clerk_id : ℕ
  pub config : Config
  pub prev_config : Config
  pub shards : List (Dict Bytes Bytes)
  pub ack : Dict ℕ ℕ

-- The zero value of a `Config`.
abbrev pub no_config : Config
no_config = record { num = 0; shards = 0 ∷ 0 ∷ 0 ∷ 0 ∷ 0 ∷ 0 ∷ 0 ∷ 0 ∷ 0 ∷ 0 ∷ []; groups = [] }

-- The loop that makes the map of each shard.
unfoldable pub make_data : ℕ → List (Dict Bytes Bytes)
make_data zero = []
make_data (suc i) = [] ∷ make_data i

-- `decode_snapshot` is the method of that name, and `x` the number that the clerk draws.
unfoldable pub start_server :
    (Bytes → ShardKv → ShardKv) → Bytes → ℕ → ℕ → ℕ → List String → ℕ → ShardKv
unfolding make_data nrand
start_server decode_snapshot snapshot me maxraftstate gid ctrlers x =
    decode_snapshot snapshot (record {
      me = me;
      dead = 0;
      raft_dead = 0;
      gid = gid;
      ctrlers = ctrlers;
      maxraftstate = maxraftstate;
      commit_chan = [];
      clerk_id = nrand x;
      config = no_config;
      prev_config = no_config;
      shards = make_data n_shards;
      ack = [];
    })

unfoldable pub kill : ShardKv → ShardKv
kill kv = record kv { raft_dead = 1 }

unfoldable pub killed : ShardKv → Bool
killed kv = kv.dead == 1

unfoldable pub open_chan : ℕ → ShardKv → ShardKv
open_chan index kv = elim (lookup index kv.commit_chan) [
  | none ↦ record kv { commit_chan = insert index none kv.commit_chan }
  | some _ ↦ kv
]

-- `sendToRaftAndWait` up to its `select`; `start` is what `rf.Start` returned.
unfoldable pub begin_wait : ℕ × Bool → ShardKv → Option ℕ × ShardKv
unfolding open_chan
begin_wait (index, is_leader) kv =
    if is_leader then (some index, open_chan index kv) else (none, kv)

-- The `select`, at the moment at which it ends: with an operation if the channel has one, else
-- with the timeout.
unfoldable pub end_wait : (Op → Op → Bool) → Op → ℕ → ShardKv → (Bool × Op) × ShardKv
end_wait is_op_matched from_client index kv = elim (lookup index kv.commit_chan) [
  | some (some from_raft) ↦ (
    (is_op_matched from_client from_raft, from_raft),
    record kv { commit_chan = insert index none kv.commit_chan },
  )
  | _ ↦ ((false, from_client), kv)
]
