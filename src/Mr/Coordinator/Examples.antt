-- ===== src/Mr/Coordinator/Examples.antt =====
-- Runs of the coordinator on two files, and its theorems at concrete inputs.
use dist_kv_raft.Common.{
  ◌+◌, ◌<◌, ◌==◌, nat_eq, bytes_eq, ◌≡◌, ◌↔◌, refl, Bool, true, false, some, List, [], ◌∷◌, Bytes,
  bytes_beq, insert, length, get_elem?, arith, pos,
}
use dist_kv_raft.Mr.Types.{MapReply, ReduceReply}
use dist_kv_raft.Mr.Worker.Job.{reduce_files}
use dist_kv_raft.Mr.Coordinator.{
  Coordinator, reply, make_coordinator, is_done, give_map_task, give_reduce_task, Call, registers,
  asks_map, ends_map, handle, serve,
}
use dist_kv_raft.Mr.Coordinator.Coherent.{
  IsCoherent, AllTrue, IsCoherent-make_coordinator, is_done_iff,
}
use dist_kv_raft.Mr.Coordinator.Handing.{
  map_answers, due, IsHonest, map_answers_in_order, reduce_after_maps,
}
use dist_kv_raft.Mr.Coordinator.Workers.{Choice, choose_worker}
use dist_kv_raft.Mr.Coordinator.Race.{ended_twice, race_starts_reduce_early}

abbrev files : List Bytes
files = (b'p' ∷ []) ∷ (b'q' ∷ []) ∷ []

abbrev fresh : Coordinator
fresh = make_coordinator files 3

-- Both map tasks are given and done, one of them reported twice, and a reduce task is given.
abbrev calls : List Call
calls =
    registers (record { worker_id = 11; worker_addr = b'w' ∷ [] })
    ∷ asks_map
    ∷ asks_map
    ∷ ends_map 1
    ∷ ends_map 1
    ∷ asks_map
    ∷ ends_map 0
    ∷ []

serve-calls : (serve calls fresh).done_map ≡ 2
unfolding serve handle make_coordinator insert
serve-calls = refl

is_done_iff_example :
    (is_done (serve calls fresh) ≡ true)
    ↔ (AllTrue (serve calls fresh).map_complete × AllTrue (serve calls fresh).reduce_complete)
is_done_iff_example = is_done_iff files 3 calls

abbrev second_task : MapReply
second_task = record { n_reduce = 3; filename = b'q' ∷ []; maptask_id = 1 }

second_answer : get_elem? (map_answers calls fresh) 1 ≡ some (reply second_task)
unfolding give_map_task handle make_coordinator insert
second_answer = refl

map_answers_in_order_example : reply second_task ≡ due files 3 1
map_answers_in_order_example =
    map_answers_in_order files 3 calls 1 (reply second_task) second_answer

calls-IsHonest : IsHonest calls fresh
unfolding handle make_coordinator insert
calls-IsHonest = omega arith

abbrev first_reduce : ReduceReply
first_reduce = record { reducetask_id = pos 0; reducefiles = reduce_files 0 0 2 }

reduce_answer : (give_reduce_task (serve calls fresh)).0 ≡ reply first_reduce
unfolding give_reduce_task serve handle make_coordinator insert
reduce_answer = refl

reduce_after_maps_example :
    AllTrue (serve calls fresh).map_complete
    × (0 < 3)
    × (first_reduce.reducefiles ≡ reduce_files 0 0 (length files))
reduce_after_maps_example =
    reduce_after_maps files 3 calls first_reduce 0 calls-IsHonest reduce_answer refl

abbrev only_v : Bytes → Bool
only_v addr = addr == b'v' ∷ []

abbrev two_workers : Coordinator
two_workers = record fresh { worker_book = (11, b'w' ∷ []) ∷ (12, b'v' ∷ []) ∷ [] }

choose_v : (choose_worker only_v two_workers).0 ≡ Choice.chosen (b'v' ∷ [])
unfolding choose_worker make_coordinator bytes_beq
choose_v = refl

fresh-IsCoherent : IsCoherent files 3 fresh
fresh-IsCoherent = IsCoherent-make_coordinator files 3

first_incomplete : get_elem? fresh.map_complete 0 ≡ some false
unfolding make_coordinator
first_incomplete = refl

two_short : fresh.done_map + 2 ≡ length files
unfolding make_coordinator
two_short = refl

one_left : fresh.counter_reduce < 3
unfolding make_coordinator
one_left = omega arith

race_starts_reduce_early_example :
    (¬ AllTrue (ended_twice 0 fresh).map_complete)
    × ((give_reduce_task (ended_twice 0 fresh)).0
        ≡ reply (record {
          reducetask_id = pos fresh.counter_reduce;
          reducefiles = reduce_files fresh.counter_reduce 0 fresh.counter_map;
        }))
race_starts_reduce_early_example =
    race_starts_reduce_early files 3 0 fresh fresh-IsCoherent first_incomplete two_short one_left
