-- ===== src/Mr/Redo.antt =====
-- mr/coordinator.go and mr/worker.go: how a task that takes too long is done again. A monitor wakes
-- every ten seconds; the coordinator as it then is, is an argument.
mod Examples
use dist_kv_raft.Common.{
  ℕ, zero, suc, nat_eq, leb, if◌then◌else◌, Bool, true, false, Option, none, some, List, [], ◌∷◌,
  Bytes, length, get_elem?, pos, ◌≡◌, refl, sym, ap, ◌∙◌, subst, arith, Option-cases, Bool-cases,
  inl, inr, replicate, set, insert,
}
use dist_kv_raft.Mr.Types.{MapArgs, MapReply, ReduceArgs, ReduceReply}
use dist_kv_raft.Mr.Coordinator.{
  Coordinator, Answer, eof, reply, panic, make_coordinator, no_map_left, take_map_task,
  give_map_task, Call, asks_map, handle, serve,
}
use dist_kv_raft.Mr.Coordinator.Coherent.{
  IsCoherent, IsCoherent-make_coordinator, IsCoherent-handle, IsCoherent-serve,
}

-- `callWorkerRedoMap` up to the call; `none` where the index panics.
unfoldable pub redo_map_args : ℕ → Coordinator → Option MapArgs
redo_map_args map_id c = elim (get_elem? c.filenames map_id) [
  | none ↦ none
  | some filename ↦
      some
        (record { n_reduce = c.n_reduce; filename = filename; maptask_id = map_id; worker_id = 0 })
]

-- `DoMapTask` up to its call of `map_exec`.
unfoldable pub do_map_task : MapArgs → MapReply
do_map_task args = record {
  n_reduce = args.n_reduce;
  filename = args.filename;
  maptask_id = args.maptask_id;
}

unfoldable pub redo_reduce_args : ℕ → List Bytes → ReduceArgs
redo_reduce_args reduce_id reduce_files = record {
  reducetask_id = reduce_id;
  reducefiles = reduce_files;
  worker_id = 0;
}

-- `DoReduceTask` up to its call of `reduce_exec`.
unfoldable pub do_reduce_task : ReduceArgs → ReduceReply
do_reduce_task args = record {
  reducetask_id = pos args.reducetask_id;
  reducefiles = args.reducefiles;
}

pub data Monitored (R : Type 0) : Type 0 where
  over : List R → Monitored R
  watching : List R → Monitored R
  panicked : Monitored R

abbrev pub after_redo : {R : Type 0} → R → Monitored R → Monitored R
after_redo task (over tasks) = over (task ∷ tasks)
after_redo task (watching tasks) = watching (task ∷ tasks)
after_redo task panicked = panicked

-- `spawn_map_monitor`, as the tasks that it has workers do again.
unfoldable pub spawn_map_monitor : ℕ → List Coordinator → Monitored MapReply
unfolding redo_map_args do_map_task
spawn_map_monitor task_id [] = watching []
spawn_map_monitor task_id (c ∷ cs) =
    let rest = spawn_map_monitor task_id cs in
    elim (get_elem? c.map_complete task_id) [
      | none ↦ panicked
      | some true ↦ over []
      | some false ↦ elim (redo_map_args task_id c) [
        | none ↦ panicked
        | some args ↦ after_redo (do_map_task args) rest
      ]
    ]

unfoldable pub spawn_reduce_monitor : ℕ → List Bytes → List Coordinator → Monitored ReduceReply
unfolding redo_reduce_args do_reduce_task
spawn_reduce_monitor task_id rfiles [] = watching []
spawn_reduce_monitor task_id rfiles (c ∷ cs) =
    let rest = spawn_reduce_monitor task_id rfiles cs in
    elim (get_elem? c.reduce_complete task_id) [
      | none ↦ panicked
      | some true ↦ over []
      | some false ↦ after_redo (do_reduce_task (redo_reduce_args task_id rfiles)) rest
    ]

given_task :
    (c : Coordinator) (task : MapReply)
    → (give_map_task c).0 ≡ reply task
    → (get_elem? c.filenames task.maptask_id ≡ some task.filename) × (task.n_reduce ≡ c.n_reduce)
unfolding give_map_task take_map_task no_map_left
given_task c task h = ground (arith, h)

-- A map task that is done again, whenever after it was handed out and by whichever worker, has the
-- file and the number of reduce tasks of the reply by which it was handed out.
pub redone_task_is_given :
    (files : List Bytes) (n : ℕ) (calls later : List Call) (task : MapReply)
    → (give_map_task (serve calls (make_coordinator files n))).0 ≡ reply task
    → (args : MapArgs) × (redo_map_args task.maptask_id
          (serve later (give_map_task (serve calls (make_coordinator files n))).1)
        ≡ some args)
      × (do_map_task args ≡ task)
unfolding redo_map_args do_map_task handle
redone_task_is_given files n calls later task h =
    let c = serve calls (make_coordinator files n) in
    let v =
      IsCoherent-serve files n calls (make_coordinator files n)
        (IsCoherent-make_coordinator files n) in
    let w =
      IsCoherent-serve files n later (give_map_task c).1 (IsCoherent-handle files n asks_map c v) in
    let given = given_task c task h in
    let now = serve later (give_map_task c).1 in
    let at : get_elem? now.filenames task.maptask_id ≡ some task.filename =
      ap (λ fs. get_elem? fs task.maptask_id) (w.same_files ∙ sym v.same_files) ∙ given.0 in
    let tasks : now.n_reduce ≡ task.n_reduce = w.same_tasks ∙ sym v.same_tasks ∙ sym given.1 in
    (
      record {
        n_reduce = now.n_reduce;
        filename = task.filename;
        maptask_id = task.maptask_id;
        worker_id = 0;
      },
      rw (redo_map_args, at),
      ap (λ m. record { n_reduce = m; filename = task.filename; maptask_id = task.maptask_id })
          tasks,
    )
