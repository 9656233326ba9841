-- ===== src/Mr/Coordinator/Handing.antt =====
-- Which tasks mr/coordinator.go hands out, and when.
use dist_kv_raft.Common.{
  ℕ, zero, suc, ◌+◌, ◌-◌, ◌≤◌, ◌<◌, nat_eq, ◌≡◌, refl, ap, sym, ◌∙◌, Bool, true, false, none, some,
  List, [], ◌∷◌, Bytes, length, get_elem?, get_elem?_past, get_elem?_below, get_elem?-set_inv,
  get_elem?-replicate_inv, arith, pos, some_inj,
}
use native.Mathlib.Decide.{dec_lt}
use dist_kv_raft.Mr.Types.{MapReply, ReduceReply}
use dist_kv_raft.Mr.Worker.Job.{reduce_files}
use dist_kv_raft.Mr.Coordinator.{
  Coordinator, Answer, eof, reply, make_coordinator, give_map_task, give_reduce_task, Call,
  registers, asks_map, asks_reduce, ends_map, ends_reduce, handle, serve,
}
use dist_kv_raft.Mr.Coordinator.Coherent.{
  IsCoherent, AllTrue, IsCoherent-make_coordinator, IsCoherent-handle, IsCoherent-serve,
  maps_done→AllTrue,
}

-- The answers to the calls for a map task, in order.
abbrev pub map_answers : List Call → Coordinator → List (Answer MapReply)
map_answers [] c = []
map_answers (asks_map ∷ calls) c = (give_map_task c).0 ∷ map_answers calls (handle asks_map c)
map_answers (registers args ∷ calls) c = map_answers calls (handle (registers args) c)
map_answers (asks_reduce ∷ calls) c = map_answers calls (handle asks_reduce c)
map_answers (ends_map id ∷ calls) c = map_answers calls (handle (ends_map id) c)
map_answers (ends_reduce id ∷ calls) c = map_answers calls (handle (ends_reduce id) c)

-- The answer to the call number `k`: task `k` while there is one.
abbrev pub due : List Bytes → ℕ → ℕ → Answer MapReply
due files n k = elim (get_elem? files k) [
  | none ↦ eof
  | some filename ↦ reply (record { n_reduce = n; filename = filename; maptask_id = k })
]

-- No worker reports a map task that has not been handed out.
abbrev pub IsHonest : List Call → Coordinator → Type 0
IsHonest [] c = Unit
IsHonest (ends_map id ∷ calls) c = (id < c.counter_map) × IsHonest calls (handle (ends_map id) c)
IsHonest (asks_map ∷ calls) c = IsHonest calls (handle asks_map c)
IsHonest (registers args ∷ calls) c = IsHonest calls (handle (registers args) c)
IsHonest (asks_reduce ∷ calls) c = IsHonest calls (handle asks_reduce c)
IsHonest (ends_reduce id ∷ calls) c = IsHonest calls (handle (ends_reduce id) c)

abbrev GivenFirst : Coordinator → Type 0
GivenFirst c = (i : ℕ) → get_elem? c.map_complete i ≡ some true → i < c.counter_map

counter_map-asks_reduce : (c : Coordinator) → (handle asks_reduce c).counter_map ≡ c.counter_map
unfolding handle
counter_map-asks_reduce c = ground arith

counter_map-ends_map :
    (id : ℕ) (c : Coordinator) → (handle (ends_map id) c).counter_map ≡ c.counter_map
unfolding handle
counter_map-ends_map id c = ground arith

counter_map-ends_reduce :
    (id : ℕ) (c : Coordinator) → (handle (ends_reduce id) c).counter_map ≡ c.counter_map
unfolding handle
counter_map-ends_reduce id c = ground arith

AllTrue-at : (bs : List Bool) (i : ℕ) → AllTrue bs → i < length bs → get_elem? bs i ≡ some true
AllTrue-at [] i h lt = absurd (omega arith)
AllTrue-at (b ∷ bs) zero h lt = ap some h.0
AllTrue-at (b ∷ bs) (suc i) h lt = AllTrue-at bs i h.1 (omega arith)

module _ (files : List Bytes) (n : ℕ) where
  answer_due :
      (c : Coordinator) → IsCoherent files n c → (give_map_task c).0 ≡ due files n c.counter_map
  unfolding give_map_task
  answer_due c v =
      ground (arith, get_elem?_past files c.counter_map, get_elem?_below files c.counter_map)

  due_past : (k : ℕ) → length files ≤ k → due files n k ≡ eof
  due_past k h = rw (get_elem?_past files k h, due)

  due_next :
      (c : Coordinator) (k : ℕ)
      → IsCoherent files n c
      → due files n ((handle asks_map c).counter_map + k) ≡ due files n (c.counter_map + suc k)
  unfolding handle
  due_next c k v = elim (dec_lt c.counter_map (length files)) [
    | yes below ↦ ap (due files n) (ground (arith, get_elem?_below files c.counter_map))
    | no above ↦
        due_past ((handle asks_map c).counter_map + k) (ground arith)
        ∙ sym (due_past (c.counter_map + suc k) (omega arith))
  ]

  answers_from :
      (calls : List Call) (c : Coordinator) (k : ℕ) (a : Answer MapReply)
      → IsCoherent files n c
      → get_elem? (map_answers calls c) k ≡ some a
      → a ≡ due files n (c.counter_map + k)
  answers_from [] c k a v e = ground arith
  answers_from (asks_map ∷ calls) c zero a v e =
      some_inj (sym e) ∙ answer_due c v ∙ ap (due files n) (omega arith)
  answers_from (asks_map ∷ calls) c (suc k) a v e =
      answers_from calls (handle asks_map c) k a (IsCoherent-handle files n asks_map c v) e
      ∙ due_next c k v
  answers_from (registers args ∷ calls) c k a v e =
      answers_from calls (handle (registers args) c) k a
        (IsCoherent-handle files n (registers args) c v) e
      ∙ unfold handle in refl
  answers_from (asks_reduce ∷ calls) c k a v e =
      answers_from calls (handle asks_reduce c) k a (IsCoherent-handle files n asks_reduce c v) e
      ∙ ap (λ i. due files n (i + k)) (counter_map-asks_reduce c)
  answers_from (ends_map id ∷ calls) c k a v e =
      answers_from calls (handle (ends_map id) c) k a (IsCoherent-handle files n (ends_map id) c v)
        e
      ∙ ap (λ i. due files n (i + k)) (counter_map-ends_map id c)
  answers_from (ends_reduce id ∷ calls) c k a v e =
      answers_from calls (handle (ends_reduce id) c) k a
        (IsCoherent-handle files n (ends_reduce id) c v) e
      ∙ ap (λ i. due files n (i + k)) (counter_map-ends_reduce id c)

  -- The calls for a map task, in whatever history of calls, get the tasks in order: the call number
  -- `k` gets task `k` with its file, and `io.EOF` where there is no such task. So each task is
  -- handed out once, and none panics.
  pub map_answers_in_order :
      (calls : List Call) (k : ℕ) (a : Answer MapReply)
      → get_elem? (map_answers calls (make_coordinator files n)) k ≡ some a
      → a ≡ due files n k
  unfolding make_coordinator
  map_answers_in_order calls k a e =
      answers_from calls (make_coordinator files n) k a (IsCoherent-make_coordinator files n) e
      ∙ ap (due files n) (omega arith)

  GivenFirst-handle :
      (call : Call) (calls : List Call) (c : Coordinator)
      → IsHonest (call ∷ calls) c
      → GivenFirst c
      → GivenFirst (handle call c) × IsHonest calls (handle call c)
  unfolding handle
  GivenFirst-handle (registers args) calls c honest g = (g, honest)
  GivenFirst-handle asks_map calls c honest g = ((λ i e. ground (arith, g i)), honest)
  GivenFirst-handle asks_reduce calls c honest g = ((λ i e. ground (arith, g i)), honest)
  GivenFirst-handle (ends_map id) calls c honest g = (
    (λ i e. ground (arith, g i, honest.0, get_elem?-set_inv c.map_complete id i true true)),
    honest.1,
  )
  GivenFirst-handle (ends_reduce id) calls c honest g = ((λ i e. ground (arith, g i)), honest)

  GivenFirst-serve :
      (calls : List Call) (c : Coordinator)
      → IsHonest calls c
      → GivenFirst c
      → GivenFirst (serve calls c)
  unfolding serve
  GivenFirst-serve [] c honest g = g
  GivenFirst-serve (call ∷ calls) c honest g =
      let (g', rest) = GivenFirst-handle call calls c honest g in
      GivenFirst-serve calls (handle call c) rest g'

  GivenFirst-make_coordinator : GivenFirst (make_coordinator files n)
  unfolding make_coordinator
  GivenFirst-make_coordinator i e =
      ground (arith, get_elem?-replicate_inv (length files) false true i)

  all_given :
      (c : Coordinator)
      → IsCoherent files n c
      → GivenFirst c
      → AllTrue c.map_complete
      → c.counter_map ≡ length files
  all_given c v g all = elim (dec_lt 0 (length files)) [
    | yes some_file ↦
        let last : length files - 1 < length c.map_complete =
          omega (arith, ap length v.same_files, v.maps) in
        let reached =
          g (length files - 1) (AllTrue-at c.map_complete (length files - 1) all last) in
        omega (arith, ap length v.same_files, v.maps_given)
    | no empty ↦ omega (arith, ap length v.same_files, v.maps_given)
  ]

  reduce_given :
      (c : Coordinator) (r : ReduceReply) (j : ℕ)
      → IsCoherent files n c
      → (give_reduce_task c).0 ≡ reply r
      → r.reducetask_id ≡ pos j
      → (c.done_map ≡ length files) × (j < n) × (r.reducefiles ≡ reduce_files j 0 c.counter_map)
  unfolding give_reduce_task
  reduce_given c r j v e id = (ground arith, ground arith, ground arith)

  -- If calls do not overlap, and workers report only map tasks that they have been given, a reduce
  -- task is handed out only
  -- once every map task is flagged complete. It is then one of the `n` tasks, and its files are
  -- those from all map tasks.
  pub reduce_after_maps :
      (calls : List Call) (r : ReduceReply) (j : ℕ)
      → IsHonest calls (make_coordinator files n)
      → (give_reduce_task (serve calls (make_coordinator files n))).0 ≡ reply r
      → r.reducetask_id ≡ pos j
      → AllTrue (serve calls (make_coordinator files n)).map_complete
        × (j < n)
        × (r.reducefiles ≡ reduce_files j 0 (length files))
  reduce_after_maps calls r j honest e id =
      let c = serve calls (make_coordinator files n) in
      let v = IsCoherent-serve files n calls _ (IsCoherent-make_coordinator files n) in
      let (d, lt, names) = reduce_given c r j v e id in
      let all = maps_done→AllTrue files n c v d in
      let g = GivenFirst-serve calls _ honest GivenFirst-make_coordinator in
      (all, lt, names ∙ ap (reduce_files j 0) (all_given c v g all))
