-- ===== src/Shardctrler/Server.antt =====
-- shardctrler/server.go: the loop that applies committed commands, and the wait of an RPC handler
-- for the command that it submitted. The bodies of handleJoin, handleLeave, handleMove and
-- handleQuery are not in the repository and are the parameter `Handlers`.
pub mod Dedup
pub mod Channels
pub mod Run
pub mod History
pub mod Numbering
mod Examples
use dist_kv_raft.Common.{
  ℕ, ltb, ◌==◌, nat_eq, string_eq, if◌then◌else◌, Bool, true, false, Option, none, some, List, [],
  ◌∷◌, Dict, lookup, insert, replicate,
}
use dist_kv_raft.Raft.Types.{ApplyMsg}
use dist_kv_raft.Shardctrler.Types.{Config, Op, n_shards}

-- `dead` and `raft_dead` are the flags of the controller and of its Raft peer. A channel of
-- `index_chan` has room for one operation.
pub record ShardCtrler : Type 0 where
  pub me : ℕ
  pub dead : ℕ
  pub raft_dead : ℕ
  pub configs : List Config
  pub cache : Dict ℕ ℕ
  pub index_chan : Dict ℕ (Option Op)

-- A handler reads and extends the configurations, and may write a reply into the operation.
pub record Handlers : Type 0 where
  pub join : Op → List Config → Op × List Config
  pub leave : Op → List Config → Op × List Config
  pub move : Op → List Config → Op × List Config
  pub query : Op → List Config → Op × List Config

abbrev pub first_config : Config
first_config = record { num = 0; shards = replicate n_shards 0; groups = [] }

unfoldable pub start_server : ℕ → ShardCtrler
start_server me = record {
  me = me;
  dead = 0;
  raft_dead = 0;
  configs = first_config ∷ [];
  cache = [];
  index_chan = [];
}

-- `Kill` passes the call on to the Raft peer.
unfoldable pub kill : ShardCtrler → ShardCtrler
kill sc = record sc { raft_dead = 1 }

unfoldable pub killed : ShardCtrler → Bool
killed sc = sc.dead == 1

-- `!exist || op.TimeStamp.After(lastTime)`
unfoldable pub is_new : Op → Dict ℕ ℕ → Bool
is_new op cache = elim (lookup op.client_id cache) [
  | none ↦ true
  | some last_time ↦ ltb last_time op.time_stamp
]

unfoldable pub dispatch : Handlers → Op → List Config → Op × List Config
dispatch h op configs =
    if op.command == "Join"
    then h.join op configs
    else if op.command == "Leave"
    then h.leave op configs
    else if op.command == "Move"
    then h.move op configs
    else if op.command == "Query"
    then h.query op configs
    else (op, configs)

-- The part of the loop's body before the reply.
unfoldable pub execute : Handlers → Op → ShardCtrler → Op × ShardCtrler
unfolding is_new
execute h op sc =
    if is_new op sc.cache
    then (let (op', configs) = dispatch h op sc.configs in
        (op', record sc { configs = configs; cache = insert op.client_id op.time_stamp sc.cache }))
    else (op, sc)

-- A goroutine that sends on a full channel stops, here while it holds the mutex.
pub data Outcome : Type 0 where
  done : ShardCtrler → Outcome
  blocked : ShardCtrler → Outcome

-- The channel of an index is made by whichever side asks for it first.
unfoldable pub open_chan : ℕ → ShardCtrler → ShardCtrler
open_chan index sc = elim (lookup index sc.index_chan) [
  | none ↦ record sc { index_chan = insert index none sc.index_chan }
  | some _ ↦ sc
]

-- `opCh <- op`
unfoldable pub send : ℕ → Op → ShardCtrler → Outcome
send index op sc = elim (lookup index sc.index_chan) [
  | some (some _) ↦ blocked sc
  | _ ↦ done (record sc { index_chan = insert index (some op) sc.index_chan })
]

unfoldable pub apply_op : Handlers → Op → ℕ → ShardCtrler → Outcome
unfolding execute open_chan send
apply_op h op index sc = let (op', sc') = execute h op sc in send index op' (open_chan index sc')

-- One round of `runShardCtrler`; a message that holds no `Op` is passed over.
unfoldable pub handle_msg : Handlers → ApplyMsg Op → ShardCtrler → Outcome
unfolding apply_op
handle_msg h m sc = elim m.command [
  | none ↦ done sc
  | some op ↦ if m.command_valid then apply_op h op m.command_index sc else done sc
]

-- `sendToRaftAndWait` up to its `select`: `start` is what `rf.Start` returned, the index and
-- whether this peer is the leader. The index is what the handler then waits on.
unfoldable pub begin_wait : ℕ × Bool → ShardCtrler → Option ℕ × ShardCtrler
unfolding open_chan
begin_wait (index, is_leader) sc =
    if is_leader then (some index, open_chan index sc) else (none, sc)

-- The `select`: an operation is taken off the channel if there is one; else the wait goes on, and
-- ends with the timeout.
unfoldable pub end_wait : (Op → Op → Bool) → Op → ℕ → ShardCtrler → (Bool × Op) × ShardCtrler
end_wait is_op_matched from_client index sc = elim (lookup index sc.index_chan) [
  | some (some from_raft) ↦ (
    (is_op_matched from_client from_raft, from_raft),
    record sc { index_chan = insert index none sc.index_chan },
  )
  | _ ↦ ((false, from_client), sc)
]

-- What happens to a controller: a message of Raft is applied, an RPC handler submits an operation
-- or ends its wait, or the tester calls `Kill`.
pub data Event : Type 0 where
  applied : ApplyMsg Op → Event
  submitted : ℕ → Bool → Event
  awaited : Op → ℕ → Event
  killed_by_tester : Event

-- `m` is `isOpMatched`, whose body is not in the repository.
module _ (h : Handlers) (m : Op → Op → Bool) where
  unfoldable pub step : Event → ShardCtrler → Outcome
  unfolding handle_msg begin_wait end_wait kill killed
  step (applied msg) sc = if killed sc then done sc else handle_msg h msg sc
  step (submitted index is_leader) sc = done (begin_wait (index, is_leader) sc).1
  step (awaited op index) sc = done (end_wait m op index sc).1
  step killed_by_tester sc = done (kill sc)

  unfoldable pub run : List Event → ShardCtrler → Outcome
  run [] sc = done sc
  run (e ∷ es) sc = elim (step e sc) [ done sc' ↦ run es sc' | blocked sc' ↦ blocked sc' ]
