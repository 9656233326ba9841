-- ===== src/Mr/Coordinator.antt =====
-- mr/coordinator.go: the handlers of the coordinator, each as one call from its lock to its return.
-- The steps of which the calls are made stand in the child `Race`.
pub mod Coherent
pub mod Handing
pub mod Workers
pub mod Race
mod Examples
use dist_kv_raft.Common.{
  ℕ, zero, suc, ◌+◌, ◌==◌, nat_eq, leb, if◌then◌else◌, Bool, true, false, ◌&&◌, not, Option, none,
  some, List, [], ◌∷◌, Bytes, Dict, insert, length, get_elem?, set, replicate, ℤ, pos, negsuc,
}
use dist_kv_raft.Mr.Types.{WorkerArgs, MapArgs, MapReply, ReduceArgs, ReduceReply}
use dist_kv_raft.Mr.Worker.Job.{reduce_files}

pub record Coordinator : Type 0 where
  pub filenames : List Bytes
  pub counter_map : ℕ
  pub counter_reduce : ℕ
  pub n_reduce : ℕ
  pub done_map : ℕ
  pub done_reduce : ℕ
  pub worker_book : Dict ℕ Bytes
  pub map_complete : List Bool
  pub reduce_complete : List Bool

unfoldable pub make_coordinator : List Bytes → ℕ → Coordinator
make_coordinator files n = record {
  filenames = files;
  counter_map = 0;
  counter_reduce = 0;
  n_reduce = n;
  done_map = 0;
  done_reduce = 0;
  worker_book = [];
  map_complete = replicate (length files) false;
  reduce_complete = replicate n false;
}

-- `Done`
unfoldable pub is_done : Coordinator → Bool
is_done c = c.done_map == length c.filenames && c.done_reduce == c.n_reduce

-- `isExit`, which returns nil rather than `ErrNotEveryoneFinish` once all is done.
unfoldable is_exit : Coordinator → Bool
unfolding is_done
is_exit c = is_done c

unfoldable pub register_worker : WorkerArgs → Coordinator → Coordinator
register_worker args c = record c {
  worker_book = insert args.worker_id args.worker_addr c.worker_book;
}

-- A handler returns `io.EOF` or a reply, or stops the process by a panic.
pub data Answer (R : Type 0) : Type 0 where
  eof : Answer R
  reply : R → Answer R
  panic : Answer R

-- `c.counter_map >= len(c.filenames)`, which is read with no lock held.
unfoldable pub no_map_left : Coordinator → Bool
no_map_left c = leb (length c.filenames) c.counter_map

-- The part under the lock, with the index into `filenames`.
unfoldable pub take_map_task : Coordinator → Answer MapReply × Coordinator
take_map_task c = elim (get_elem? c.filenames c.counter_map) [
  | none ↦ (panic, c)
  | some filename ↦ (
    reply (record { n_reduce = c.n_reduce; filename = filename; maptask_id = c.counter_map }),
    record c { counter_map = suc c.counter_map },
  )
]

unfoldable pub give_map_task : Coordinator → Answer MapReply × Coordinator
unfolding no_map_left take_map_task
give_map_task c = if no_map_left c then (eof, c) else take_map_task c

unfoldable pub give_reduce_task : Coordinator → Answer ReduceReply × Coordinator
give_reduce_task c =
    if not (c.done_map == length c.filenames)
    then (reply (record { reducetask_id = negsuc 0; reducefiles = [] }), c)
    else if leb c.n_reduce c.counter_reduce
    then (eof, c)
    else (
      reply (record {
        reducetask_id = pos c.counter_reduce;
        reducefiles = reduce_files c.counter_reduce 0 c.counter_map;
      }),
      record c { counter_reduce = suc c.counter_reduce },
    )

-- Whether the reply is nil rather than `ErrMapNotCompleted`.
unfoldable pub check_last_map_done : ℕ → Coordinator → Answer Bool × Coordinator
check_last_map_done id c = elim (get_elem? c.map_complete id) [
  | none ↦ (panic, c)
  | some true ↦ (reply (c.done_map == length c.filenames), c)
  | some false ↦ (
    reply (suc c.done_map == length c.filenames),
    record c { map_complete = set c.map_complete id true; done_map = suc c.done_map },
  )
]

unfoldable pub check_last_reduce_done : ℕ → Coordinator → Answer Bool × Coordinator
check_last_reduce_done id c = elim (get_elem? c.reduce_complete id) [
  | none ↦ (panic, c)
  | some true ↦ (reply (c.done_reduce == c.n_reduce), c)
  | some false ↦ (
    reply (suc c.done_reduce == c.n_reduce),
    record c { reduce_complete = set c.reduce_complete id true; done_reduce = suc c.done_reduce },
  )
]

-- The calls of workers, one at a time.
pub data Call : Type 0 where
  registers : WorkerArgs → Call
  asks_map asks_reduce : Call
  ends_map ends_reduce : ℕ → Call

unfoldable pub handle : Call → Coordinator → Coordinator
unfolding register_worker give_map_task give_reduce_task check_last_map_done check_last_reduce_done
handle (registers args) c = register_worker args c
handle asks_map c = (give_map_task c).1
handle asks_reduce c = (give_reduce_task c).1
handle (ends_map id) c = (check_last_map_done id c).1
handle (ends_reduce id) c = (check_last_reduce_done id c).1

unfoldable pub serve : List Call → Coordinator → Coordinator
serve [] c = c
serve (call ∷ calls) c = serve calls (handle call c)
