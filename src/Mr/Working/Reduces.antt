-- ===== src/Mr/Working/Reduces.antt =====
-- mr/worker.go with mr/coordinator.go: the second loop of a worker that is alone.
use dist_kv_raft.Common.{
  ℕ, zero, suc, ◌+◌, ◌<◌, nat_eq, leb, pos, if◌then◌else◌, Bool, true, false, Option, some, List,
  [], ◌∷◌, ◌++◌, Bytes, length, get_elem?, get_elem?-set_self, get_elem?-lt_length, set, replicate,
  ◌≡◌, ◌≢◌, refl, ap, ◌∙◌, arith, beq_refl, Bool-cases, inl, inr,
}
use dist_kv_raft.Mr.Types.{ReduceReply}
use dist_kv_raft.Mr.Worker.{Intermediates, Outputs, reduce_exec}
use dist_kv_raft.Mr.Worker.Job.{reduce_files}
use dist_kv_raft.Mr.Coordinator.{
  Coordinator, Answer, eof, reply, give_reduce_task, check_last_reduce_done,
}
use dist_kv_raft.Mr.Redo.{redo_reduce_args, do_reduce_task}
use dist_kv_raft.Mr.Working.{
  Site, Setting, Deed, reduces, idles, put_before, and_go_on, as_deed, do_reduce, redo_reduce,
  reduce_task, reduce_answer, reduce_loop,
}
use dist_kv_raft.Mr.Working.Steps.{AreUnset, AreUnset-set, lone_book, on_worker_lem}

once_or_twice :
    (b : Bool) (d : Deed) (ds : List Deed) (s : Site)
    → put_before (if b then d ∷ d ∷ [] else d ∷ []) (some (ds, s))
      ≡ some ((if b then d ∷ d ∷ [] else d ∷ []) ++ ds, s)
once_or_twice true d ds s = refl
once_or_twice false d ds s = refl

late_assoc :
    (b : Bool) (d : Deed) (ds es : List Deed)
    → (if b then d ∷ d ∷ [] else d ∷ []) ++ (ds ++ es)
      ≡ ((if b then d ∷ d ∷ [] else d ∷ []) ++ ds) ++ es
late_assoc true d ds es = refl
late_assoc false d ds es = refl

-- Reduce task `i`, after `m` map tasks.
abbrev pub reduce_deed : ℕ → ℕ → Deed
reduce_deed m i = reduces (record { reducetask_id = pos i; reducefiles = reduce_files i 0 m })

module _ (w : Setting) where
  -- The reduce tasks that are left, from task `i` on; one that is late is done twice.
  abbrev pub reduce_deeds : ℕ → ℕ → ℕ → List Deed
  reduce_deeds m zero i = []
  reduce_deeds m (suc left) i =
      (if w.is_late_reduce i then reduce_deed m i ∷ reduce_deed m i ∷ [] else reduce_deed m i ∷ [])
      ++ reduce_deeds m left (suc i)

  module _ (pid : ℕ) (addr : Bytes) (up : w.dials addr ≡ true) (named : addr ≢ [])
      (names : List Bytes) (n : ℕ) (flags : List Bool) (files : Intermediates) where
    abbrev pub reducing : ℕ → ℕ → List Bool → Coordinator
    reducing given i rflags = record {
      filenames = names;
      counter_map = length names;
      counter_reduce = given;
      n_reduce = n;
      done_map = length names;
      done_reduce = i;
      worker_book = lone_book pid addr;
      map_complete = flags;
      reduce_complete = rflags;
    }

    abbrev place : ℕ → ℕ → List Bool → Outputs → Site
    place given i rflags outputs = record {
      coordinator = reducing given i rflags;
      files = files;
      outputs = outputs;
    }

    abbrev written : ℕ → Outputs → Outputs
    written i outputs =
        reduce_exec w.sort w.reducef i (reduce_files i 0 (length names)) files outputs

    do_new :
        (given i : ℕ) (rflags : List Bool) (outputs : Outputs)
        → get_elem? rflags i ≡ some false
        → do_reduce w i (reduce_files i 0 (length names)) (place given i rflags outputs)
          ≡ place given (suc i) (set rflags i true) (written i outputs)
    unfolding do_reduce check_last_reduce_done
    do_new given i rflags outputs g =
        let told : (check_last_reduce_done i (reducing given i rflags)).1
            ≡ reducing given (suc i) (set rflags i true) =
          rw (check_last_reduce_done, g) in
        ap
          (λ (c : Coordinator). record {
            coordinator = c;
            files = files;
            outputs = written i outputs;
          })
          told

    do_again :
        (given i : ℕ) (rflags : List Bool) (outputs : Outputs)
        → get_elem? rflags i ≡ some true
        → do_reduce w i (reduce_files i 0 (length names)) (place given (suc i) rflags outputs)
          ≡ place given (suc i) rflags (written i outputs)
    unfolding do_reduce check_last_reduce_done
    do_again given i rflags outputs g =
        let told : (check_last_reduce_done i (reducing given (suc i) rflags)).1
            ≡ reducing given (suc i) rflags =
          rw (check_last_reduce_done, g) in
        ap
          (λ (c : Coordinator). record {
            coordinator = c;
            files = files;
            outputs = written i outputs;
          })
          told

    redo_reduce_lem :
        (i : ℕ) (rflags : List Bool) (outputs : Outputs)
        → get_elem? rflags i ≡ some false
        → redo_reduce w i (reduce_files i 0 (length names)) (place (suc i) i rflags outputs)
          ≡ some (
            reduce_deed (length names) i ∷ [],
            place (suc i) (suc i) (set rflags i true) (written i outputs),
          )
    unfolding redo_reduce redo_reduce_args do_reduce_task
    redo_reduce_lem i rflags outputs g =
        let run : Site → Option Site =
          λ s1. some (do_reduce w i (reduce_files i 0 (length names)) s1) in
        let called =
          on_worker_lem w pid addr up named run (reducing (suc i) i rflags) files outputs in
        rw (redo_reduce, g)
          (ap (as_deed (reduce_deed (length names) i))
            (called ∙ ap some (do_new (suc i) i rflags outputs g)))

    reduce_task_lem :
        (i : ℕ) (rflags : List Bool) (outputs : Outputs)
        → get_elem? rflags i ≡ some false
        → (outputs' : Outputs) × (reduce_answer w
              (reply
                (record { reducetask_id = pos i; reducefiles = reduce_files i 0 (length names) }))
              (place (suc i) i rflags outputs)
            ≡ some (
              (if w.is_late_reduce i
                  then reduce_deed (length names) i ∷ reduce_deed (length names) i ∷ []
                  else reduce_deed (length names) i ∷ []),
              place (suc i) (suc i) (set rflags i true) outputs',
            ))
    unfolding reduce_answer reduce_task
    reduce_task_lem i rflags outputs g =
        let d = reduce_deed (length names) i in
        let own = reduce_files i 0 (length names) in
        let is_set : get_elem? (set rflags i true) i ≡ some true =
          get_elem?-set_self rflags i true (get_elem?-lt_length rflags i false g) in
        elim (Bool-cases (w.is_late_reduce i)) [
          | inl late ↦ (
            written i (written i outputs),
            rw late (
                ap
                  (λ (o : Option (List Deed × Site)).
                    and_go_on o λ s1. some (d ∷ [], do_reduce w i own s1))
                  (redo_reduce_lem i rflags outputs g)
                ∙ ap (λ (s1 : Site). some (d ∷ d ∷ [], s1))
                    (do_again (suc i) i (set rflags i true) (written i outputs) is_set)),
          )
          | inr soon ↦ (
            written i outputs,
            rw soon (ap (λ (s1 : Site). some (d ∷ [], s1)) (do_new (suc i) i rflags outputs g)),
          )
        ]

    -- With no task left every round is the empty branch.
    idle_loop_lem :
        (r : ℕ) (rflags : List Bool) (outputs : Outputs)
        → reduce_loop w r (place n n rflags outputs)
          ≡ some (replicate r idles, place n n rflags outputs)
    unfolding reduce_loop give_reduce_task reduce_answer
    idle_loop_lem zero rflags outputs = refl
    idle_loop_lem (suc r) rflags outputs =
        let none_left : leb n n ≡ true = ground arith in
        let given : give_reduce_task (reducing n n rflags) ≡ (eof, reducing n n rflags) =
          rw (give_reduce_task, beq_refl (length names), none_left) in
        ap
          (λ (p : Answer ReduceReply × Coordinator).
            and_go_on
              (reduce_answer w p.0 (record { coordinator = p.1; files = files; outputs = outputs }))
              (reduce_loop w r))
          given
        ∙ ap (put_before (idles ∷ [])) (idle_loop_lem r rflags outputs)

    pub reduce_loop_lem :
        (r left i : ℕ) (rflags : List Bool) (outputs : Outputs)
        → i + left ≡ n
        → AreUnset i n rflags
        → (rflags' : List Bool) × (outputs' : Outputs) × (reduce_loop w
              (left + r)
              (place i i rflags outputs)
            ≡ some (
              reduce_deeds (length names) left i ++ replicate r idles,
              place n n rflags' outputs',
            ))
    unfolding reduce_loop give_reduce_task
    reduce_loop_lem r zero i rflags outputs e unset = (
      rflags,
      outputs,
      ap (λ (m : ℕ). reduce_loop w m (place i i rflags outputs)) {x = 0 + r} {y = r} (omega arith)
          ∙ ap (λ (k : ℕ). reduce_loop w r (place k k rflags outputs)) {x = i} {y = n} (omega arith)
          ∙ idle_loop_lem r rflags outputs,
    )
    reduce_loop_lem r (suc left) i rflags outputs e unset =
        let lt : i < n = omega arith in
        let more : leb n i ≡ false = ground arith in
        let rr : ReduceReply = record {
          reducetask_id = pos i;
          reducefiles = reduce_files i 0 (length names);
        } in
        let given : give_reduce_task (reducing i i rflags) ≡ (reply rr, reducing (suc i) i rflags) =
          rw (give_reduce_task, beq_refl (length names), more) in
        let (outputs1, done) = reduce_task_lem i rflags outputs (unset i (omega arith) lt) in
        let (rflags', outputs', rest) =
          reduce_loop_lem r left (suc i) (set rflags i true) outputs1 (omega arith)
            (AreUnset-set i n rflags unset) in
        let d = reduce_deed (length names) i in
        (
          rflags',
          outputs',
          ap (λ (m : ℕ). reduce_loop w m (place i i rflags outputs)) {x = suc left + r}
                {y = suc (left + r)} (omega arith)
              ∙ ap
                  (λ (p : Answer ReduceReply × Coordinator).
                    and_go_on
                      (reduce_answer w p.0
                        (record { coordinator = p.1; files = files; outputs = outputs }))
                      (reduce_loop w (left + r)))
                  given
              ∙ ap (λ (o : Option (List Deed × Site)). and_go_on o (reduce_loop w (left + r))) done
              ∙ ap (put_before (if w.is_late_reduce i then d ∷ d ∷ [] else d ∷ [])) rest
              ∙ once_or_twice (w.is_late_reduce i) d
                  (reduce_deeds (length names) left (suc i) ++ replicate r idles)
                  (place n n rflags' outputs')
              ∙ ap (λ (ds : List Deed). some (ds, place n n rflags' outputs'))
                  (late_assoc (w.is_late_reduce i) d (reduce_deeds (length names) left (suc i))
                    (replicate r idles)),
        )
