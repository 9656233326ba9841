-- ===== src/Mr/Redo/Examples.antt =====
-- A map task that is done again.
use dist_kv_raft.Common.{◌≡◌, refl, true, false, List, [], ◌∷◌, Bytes, pos}
use dist_kv_raft.Mr.Types.{MapReply}
use dist_kv_raft.Mr.Coordinator.{reply, make_coordinator, give_map_task, asks_map, serve, handle}
use dist_kv_raft.Mr.Redo.{
  do_reduce_task, redo_reduce_args, spawn_map_monitor, spawn_reduce_monitor, over,
}

abbrev files : List Bytes
files = (b'p' ∷ []) ∷ (b'q' ∷ []) ∷ []

abbrev second : MapReply
second = record { n_reduce = 3; filename = b'q' ∷ []; maptask_id = 1 }

second_given : (give_map_task (serve (asks_map ∷ []) (make_coordinator files 3))).0 ≡ reply second
unfolding give_map_task make_coordinator serve handle
second_given = refl

monitored_once :
    spawn_map_monitor 1 (
      make_coordinator files 3
      ∷ record (make_coordinator files 3) { map_complete = false ∷ true ∷ [] }
      ∷ [])
    ≡ over (second ∷ [])
unfolding spawn_map_monitor make_coordinator
monitored_once = refl

reduce_keeps_task : (do_reduce_task (redo_reduce_args 2 files)).reducetask_id ≡ pos 2
unfolding do_reduce_task redo_reduce_args
reduce_keeps_task = refl

reduce_monitored_once :
    spawn_reduce_monitor 0 files (
      make_coordinator files 1
      ∷ record (make_coordinator files 1) { reduce_complete = true ∷ [] }
      ∷ [])
    ≡ over (do_reduce_task (redo_reduce_args 0 files) ∷ [])
unfolding spawn_reduce_monitor make_coordinator
reduce_monitored_once = refl
