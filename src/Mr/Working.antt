-- ===== src/Mr/Working.antt =====
-- mr/worker.go: the main loops of `Worker`, against the handlers and the monitors of the coordinator,
-- where this worker is the only one. `call` gives false where a handler returns an error, and where
-- it panics. `none` is the end of a process by `log.Fatal` or a panic.
pub mod Steps
pub mod Maps
pub mod Reduces
pub mod Alone
mod Examples
use dist_kv_raft.Common.{
  ℕ, zero, suc, nat_eq, ℤ, pos, negsuc, if◌then◌else◌, Bool, true, false, Option, none, some, List,
  [], ◌∷◌, ◌++◌, Bytes, get_elem?,
}
use dist_kv_raft.Mr.Types.{KeyValue, WorkerArgs, MapReply, ReduceReply}
use dist_kv_raft.Mr.Worker.{Intermediates, Outputs, map_exec, reduce_exec}
use dist_kv_raft.Mr.Coordinator.{
  Coordinator, Answer, eof, reply, panic, register_worker, give_map_task, give_reduce_task,
  check_last_map_done, check_last_reduce_done,
}
use dist_kv_raft.Mr.Coordinator.Workers.{Choice, chosen, fatal, choose_worker}
use dist_kv_raft.Mr.Redo.{redo_map_args, do_map_task, redo_reduce_args, do_reduce_task}

-- The coordinator and the two kinds of files.
pub record Site : Type 0 where
  pub coordinator : Coordinator
  pub files : Intermediates
  pub outputs : Outputs

-- What the worker does: a task, the sleep of three seconds, or the empty branch.
pub data Deed : Type 0 where
  maps : MapReply → Deed
  reduces : ReduceReply → Deed
  sleeps : Deed
  idles : Deed

abbrev pub put_before : {X : Type 0} → List Deed → Option (List Deed × X) → Option (List Deed × X)
put_before ds none = none
put_before ds (some (es, x)) = some (ds ++ es, x)

abbrev pub and_go_on :
    {X : Type 0}
    → Option (List Deed × Site)
    → (Site → Option (List Deed × X))
    → Option (List Deed × X)
and_go_on none k = none
and_go_on (some (ds, s)) k = put_before ds (k s)

abbrev pub as_deed : Deed → Option Site → Option (List Deed × Site)
as_deed d none = none
as_deed d (some s) = some (d ∷ [], s)

-- A site, and whether the first loop is left.
pub record Stage : Type 0 where
  pub left : Bool
  pub site : Site

-- What the worker and the coordinator run with and in. `dials` says which addresses answer, `read`
-- gives what can be read of a file, and `can_open` says which can be opened for writing. A task is
-- late if its flag is not set yet when its monitor wakes after ten seconds.
pub record Setting : Type 0 where
  pub dials : Bytes → Bool
  pub read : Bytes → Option Bytes
  pub can_open : Bytes → Bool
  pub mapf : Bytes → Bytes → List KeyValue
  pub sort : List KeyValue → List KeyValue
  pub reducef : Bytes → List Bytes → Bytes
  pub is_late_map : ℕ → Bool
  pub is_late_reduce : ℕ → Bool

-- The RPC goes to the chosen worker, which is this one.
abbrev pub on_choice : Choice → (Site → Option Site) → Site → Option Site
on_choice (chosen addr) run s = run s
on_choice fatal run s = none

module _ (w : Setting) where
  -- `map_exec` with its report. It ends the process if the file cannot be read, and panics if there
  -- is a pair and no reduce task.
  unfoldable pub do_map : MapReply → Site → Option Site
  unfolding map_exec check_last_map_done
  do_map task s = elim (w.read task.filename) [
    | none ↦ none
    | some content ↦ elim (map_exec w.can_open w.mapf content task s.files) [
      | none ↦ none
      | some files ↦ some (record s {
        files = files;
        coordinator = (check_last_map_done task.maptask_id s.coordinator).1;
      })
    ]
  ]

  -- callWorker: the worker that answers is this one.
  unfoldable pub on_worker : (Site → Option Site) → Site → Option Site
  unfolding choose_worker
  on_worker run s =
      let (choice, c) = choose_worker w.dials s.coordinator in
      on_choice choice run (record s { coordinator = c })

  -- The monitor of a map task wakes.
  unfoldable pub redo_map : ℕ → Site → Option (List Deed × Site)
  unfolding do_map on_worker redo_map_args do_map_task
  redo_map id s = elim (get_elem? s.coordinator.map_complete id) [
    | none ↦ none
    | some true ↦ some ([], s)
    | some false ↦ elim (redo_map_args id s.coordinator) [
      | none ↦ none
      | some args ↦ as_deed (maps (do_map_task args)) (on_worker (do_map (do_map_task args)) s)
    ]
  ]

  -- From the reply on. What a monitor asks for ends before the first run of the task does.
  unfoldable pub map_task : MapReply → Site → Option (List Deed × Site)
  unfolding redo_map do_map
  map_task task s =
      and_go_on (if w.is_late_map task.maptask_id then redo_map task.maptask_id s else some ([], s))
        λ s1. as_deed (maps task) (do_map task s1)

  -- The rest of a round of the first loop, and then the rounds after it; true is the break.
  unfoldable pub map_answer :
      Answer MapReply → Site → (Site → Option (List Deed × Stage)) → Option (List Deed × Stage)
  unfolding map_task
  map_answer eof s later = some ([], record { left = true; site = s })
  map_answer panic s later = some ([], record { left = true; site = s })
  map_answer (reply task) s later = and_go_on (map_task task s) later

  unfoldable pub map_loop : ℕ → Site → Option (List Deed × Stage)
  unfolding give_map_task map_answer
  map_loop zero s = some ([], record { left = false; site = s })
  map_loop (suc rounds) s =
      let (answer, c1) = give_map_task s.coordinator in
      map_answer answer (record s { coordinator = c1 }) (map_loop rounds)

  -- `reduce_exec` with its report.
  unfoldable pub do_reduce : ℕ → List Bytes → Site → Site
  unfolding reduce_exec check_last_reduce_done
  do_reduce id reducefiles s = record s {
    outputs = reduce_exec w.sort w.reducef id reducefiles s.files s.outputs;
    coordinator = (check_last_reduce_done id s.coordinator).1;
  }

  -- The monitor of a reduce task wakes.
  unfoldable pub redo_reduce : ℕ → List Bytes → Site → Option (List Deed × Site)
  unfolding do_reduce on_worker redo_reduce_args do_reduce_task
  redo_reduce id reducefiles s = elim (get_elem? s.coordinator.reduce_complete id) [
    | none ↦ none
    | some true ↦ some ([], s)
    | some false ↦
        let rr = do_reduce_task (redo_reduce_args id reducefiles) in
        as_deed (reduces rr) (on_worker (λ s1. some (do_reduce id rr.reducefiles s1)) s)
  ]

  -- From a reply with this id on. The report of another negative id makes the coordinator panic.
  unfoldable pub reduce_task : ReduceReply → ℤ → Site → Option (List Deed × Site)
  unfolding redo_reduce do_reduce
  reduce_task rr (pos id) s =
      and_go_on (if w.is_late_reduce id then redo_reduce id rr.reducefiles s else some ([], s))
        λ s1. some (reduces rr ∷ [], do_reduce id rr.reducefiles s1)
  reduce_task rr (negsuc zero) s = some (sleeps ∷ [], s)
  reduce_task rr (negsuc (suc k)) s = none

  -- A round of the second loop after the answer.
  unfoldable pub reduce_answer : Answer ReduceReply → Site → Option (List Deed × Site)
  unfolding reduce_task
  reduce_answer eof s = some (idles ∷ [], s)
  reduce_answer panic s = some (idles ∷ [], s)
  reduce_answer (reply rr) s = reduce_task rr rr.reducetask_id s

  -- So many rounds of the second loop, which never ends.
  unfoldable pub reduce_loop : ℕ → Site → Option (List Deed × Site)
  unfolding give_reduce_task reduce_answer
  reduce_loop zero s = some ([], s)
  reduce_loop (suc rounds) s =
      let (answer, c1) = give_reduce_task s.coordinator in
      and_go_on (reduce_answer answer (record s { coordinator = c1 })) (reduce_loop rounds)

  -- The second loop is reached where the first is left.
  abbrev pub and_reduce :
      Option (List Deed × Stage) → (Site → Option (List Deed × Site)) → Option (List Deed × Site)
  and_reduce none k = none
  and_reduce (some (ds, stage)) k =
      if stage.left then put_before ds (k stage.site) else some (ds, stage.site)

  -- `Worker`, with rounds for each loop.
  unfoldable pub worker : WorkerArgs → ℕ → ℕ → Site → Option (List Deed × Site)
  unfolding map_loop reduce_loop register_worker
  worker register_info map_rounds reduce_rounds s =
      and_reduce
        (map_loop map_rounds
          (record s { coordinator = register_worker register_info s.coordinator }))
        (reduce_loop reduce_rounds)
