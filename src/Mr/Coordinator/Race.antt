-- ===== src/Mr/Coordinator/Race.antt =====
-- The steps of the handlers of mr/coordinator.go between which another call may run: the checks
-- are made before the lock is taken.
use dist_kv_raft.Common.{
  ℕ, zero, suc, ◌+◌, ◌<◌, ◌==◌, nat_eq, ◌≡◌, ap, Bool, true, false, none, some, List, [], ◌∷◌,
  length, length-set, get_elem?, get_elem?_past, get_elem?_below, pos, set, arith, Bytes,
}
use dist_kv_raft.Mr.Types.{MapReply}
use dist_kv_raft.Mr.Worker.Job.{reduce_files}
use dist_kv_raft.Mr.Coordinator.{
  Coordinator, Answer, eof, reply, panic, no_map_left, take_map_task, check_last_map_done,
  give_reduce_task,
}
use dist_kv_raft.Mr.Coordinator.Coherent.{count_true, count_of_AllTrue, IsCoherent, AllTrue}

-- Where a call of GiveMapTask stands: before the check, behind it, or at its end.
pub data Asking : Type 0 where
  arrived : Asking
  checked : Asking
  answered : Answer MapReply → Asking

-- Where a call of CheckLastMapDone stands: before it reads the flag, before it sets it, before it
-- counts, or at its comparison.
pub data Ending : Type 0 where
  reads : Ending
  sets : Ending
  counts : Ending
  compares : Ending
  ended : Answer Bool → Ending

-- One step of one call, on the shared state.
unfoldable pub ask_step : Asking → Coordinator → Asking × Coordinator
unfolding no_map_left take_map_task
ask_step arrived c = elim (no_map_left c) [ true ↦ (answered eof, c) | false ↦ (checked, c) ]
ask_step checked c = let (a, c') = take_map_task c in (answered a, c')
ask_step (answered a) c = (answered a, c)

unfoldable pub end_step : ℕ → Ending → Coordinator → Ending × Coordinator
end_step id reads c = elim (get_elem? c.map_complete id) [
  | none ↦ (ended panic, c)
  | some true ↦ (compares, c)
  | some false ↦ (sets, c)
]
end_step id sets c = (counts, record c { map_complete = set c.map_complete id true })
end_step id counts c = (compares, record c { done_map = suc c.done_map })
end_step id compares c = (ended (reply (c.done_map == length c.filenames)), c)
end_step id (ended a) c = (ended a, c)

-- Two calls on one state, and the schedule of their steps: `false` for the first call.
unfoldable pub interleave {ℓ} :
    {P : Type ℓ}
    → (P → Coordinator → P × Coordinator)
    → List Bool
    → P
    → P
    → Coordinator
    → P × P × Coordinator
interleave step [] p q c = (p, q, c)
interleave step (false ∷ rest) p q c = let (p', c') = step p c in interleave step rest p' q c'
interleave step (true ∷ rest) p q c = let (q', c') = step q c in interleave step rest p q' c'

abbrev pub one_call : List Bool
one_call = false ∷ false ∷ false ∷ false ∷ []

-- A call of CheckLastMapDone whose steps no other call interrupts is the handler.
pub end_steps_alone :
    (id : ℕ) (c : Coordinator) (other : Ending)
    → interleave (end_step id) one_call reads other c
      ≡ (let (a, c') = check_last_map_done id c in (ended a, other, c'))
unfolding interleave end_step check_last_map_done
end_steps_alone id c other = ground arith

abbrev pub alternating : List Bool
alternating = false ∷ true ∷ false ∷ true ∷ false ∷ true ∷ false ∷ true ∷ []

-- Two calls for one incomplete task, step by step in turn.
abbrev pub ended_twice : ℕ → Coordinator → Coordinator
ended_twice id c = (interleave (end_step id) alternating reads reads c).2

ended_twice_lem :
    (id : ℕ) (c : Coordinator)
    → get_elem? c.map_complete id ≡ some false
    → ended_twice id c ≡ record c {
      map_complete = set (set c.map_complete id true) id true;
      done_map = suc (suc c.done_map);
    }
unfolding interleave end_step
ended_twice_lem id c e = ground arith

count_true-set-set :
    (bs : List Bool) (i : ℕ)
    → get_elem? bs i ≡ some false
    → count_true (set (set bs i true) i true) ≡ suc (count_true bs)
count_true-set-set [] i e = ground arith
count_true-set-set (b ∷ bs) zero e = ground arith
count_true-set-set (true ∷ bs) (suc i) e = ap suc (count_true-set-set bs i e)
count_true-set-set (false ∷ bs) (suc i) e = count_true-set-set bs i e

-- Two calls for one task that is not yet flagged, each of which reads the flag before the other
-- sets it, count the task twice. If that leaves one task short of all, the coordinator hands out
-- reduce tasks although a map task is not complete.
pub race_starts_reduce_early :
    (files : List Bytes) (n id : ℕ) (c : Coordinator)
    → IsCoherent files n c
    → get_elem? c.map_complete id ≡ some false
    → c.done_map + 2 ≡ length files
    → c.counter_reduce < n
    → let c' = ended_twice id c in
      (¬ AllTrue c'.map_complete)
      × ((give_reduce_task c').0
          ≡ reply (record {
            reducetask_id = pos c.counter_reduce;
            reducefiles = reduce_files c.counter_reduce 0 c.counter_map;
          }))
unfolding give_reduce_task
race_starts_reduce_early files n id c v e short left =
    rw (ended_twice_lem id c e, give_reduce_task)
      (let flags = set (set c.map_complete id true) id true in
        (
          (λ all. omega (
            arith,
            count_of_AllTrue flags all,
            count_true-set-set c.map_complete id e,
            length-set c.map_complete id true,
            length-set (set c.map_complete id true) id true,
            v.maps_done,
            v.maps,
            ap length v.same_files,
          )),
          ground arith,
        ))

-- Two calls of GiveMapTask that both pass the check while one file is left panic on the index.
pub race_panics :
    (c : Coordinator)
    → c.counter_map + 1 ≡ length c.filenames
    → (interleave ask_step (false ∷ true ∷ false ∷ true ∷ []) arrived arrived c).1 ≡ answered panic
unfolding interleave ask_step
race_panics c e = ground (
  arith,
  get_elem?_past c.filenames (suc c.counter_map),
  get_elem?_below c.filenames c.counter_map,
)
