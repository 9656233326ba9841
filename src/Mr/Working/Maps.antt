-- ===== src/Mr/Working/Maps.antt =====
-- mr/worker.go with mr/coordinator.go: the first loop of a worker that is alone.
use dist_kv_raft.Common.{
  ℕ, zero, suc, ◌+◌, ◌<◌, nat_eq, bytes_eq, leb, if◌then◌else◌, Bool, true, false, Option, some,
  List, [], ◌∷◌, ◌++◌, Bytes, All, length, get_elem?, get_elem?-set_self, get_elem?-lt_length, set,
  replicate, ◌≡◌, ◌≢◌, refl, ap, ◌∙◌, arith, Bool-cases, inl, inr, subst, some_inj,
}
use dist_kv_raft.Mr.Types.{MapReply}
use dist_kv_raft.Mr.Worker.{Intermediates, Outputs}
use dist_kv_raft.Mr.Coordinator.{
  Coordinator, Answer, eof, reply, give_map_task, take_map_task, no_map_left, check_last_map_done,
}
use dist_kv_raft.Mr.Redo.{redo_map_args, do_map_task}
use dist_kv_raft.Mr.Working.{
  Site, Stage, Setting, Deed, maps, and_go_on, as_deed, do_map, redo_map, map_task, map_answer,
  map_loop, put_before,
}
use dist_kv_raft.Mr.Working.Steps.{
  IsRead, AreUnset, AreUnset-set, lone_book, site, on_worker_lem, do_map_lem,
}

late_cases :
    (b : Bool) (d : Deed) (ds : List Deed) (stage : Stage)
    → put_before ((if b then d ∷ d ∷ [] else d ∷ []) ++ []) (some (ds, stage))
      ≡ some ((if b then d ∷ d ∷ [] else d ∷ []) ++ ds, stage)
late_cases true d ds stage = refl
late_cases false d ds stage = refl

module _ (w : Setting) where
  -- The tasks of the files from task `i` on; one that is late is done twice.
  abbrev pub map_deeds : ℕ → ℕ → List Bytes → List Deed
  map_deeds n i [] = []
  map_deeds n i (f ∷ fs) =
      let d = maps (record { n_reduce = n; filename = f; maptask_id = i }) in
      (if w.is_late_map i then d ∷ d ∷ [] else d ∷ []) ++ map_deeds n (suc i) fs

module _ (w : Setting) (pid : ℕ) (addr : Bytes) (up : w.dials addr ≡ true) (named : addr ≢ []) where
  module _ (names : List Bytes) (n : ℕ) (pos : 0 < n) (all_read : All (IsRead w.read) names) where
    abbrev pub mapping : ℕ → ℕ → List Bool → Coordinator
    mapping given i flags = record {
      filenames = names;
      counter_map = given;
      counter_reduce = 0;
      n_reduce = n;
      done_map = i;
      done_reduce = 0;
      worker_book = lone_book pid addr;
      map_complete = flags;
      reduce_complete = replicate n false;
    }

    told_new :
        (given i : ℕ) (flags : List Bool)
        → get_elem? flags i ≡ some false
        → (check_last_map_done i (mapping given i flags)).1
          ≡ mapping given (suc i) (set flags i true)
    unfolding check_last_map_done
    told_new given i flags g = rw (check_last_map_done, g)

    told_again :
        (given i : ℕ) (flags : List Bool)
        → get_elem? flags i ≡ some true
        → (check_last_map_done i (mapping given (suc i) flags)).1 ≡ mapping given (suc i) flags
    unfolding check_last_map_done
    told_again given i flags g = rw (check_last_map_done, g)

    redo_map_lem :
        (i : ℕ) (f text : Bytes) (flags : List Bool) (files : Intermediates) (outputs : Outputs)
        → get_elem? names i ≡ some f
        → w.read f ≡ some text
        → get_elem? flags i ≡ some false
        → (files' : Intermediates) × (redo_map w i (site (mapping (suc i) i flags) files outputs)
            ≡ some (
              maps (record { n_reduce = n; filename = f; maptask_id = i }) ∷ [],
              site (mapping (suc i) (suc i) (set flags i true)) files' outputs,
            ))
    unfolding redo_map redo_map_args do_map_task
    redo_map_lem i f text flags files outputs e reads g =
        let task : MapReply = record { n_reduce = n; filename = f; maptask_id = i } in
        let (files', done) =
          do_map_lem w pid addr up named task text (mapping (suc i) i flags)
            (mapping (suc i) (suc i) (set flags i true)) files outputs reads pos
            (told_new (suc i) i flags g) in
        let called =
          on_worker_lem w pid addr up named (do_map w task) (mapping (suc i) i flags) files
            outputs in
        (files', rw (redo_map, g, e) (ap (as_deed (maps task)) (called ∙ done)))

    map_task_lem :
        (i : ℕ) (f text : Bytes) (flags : List Bool) (files : Intermediates) (outputs : Outputs)
        → get_elem? names i ≡ some f
        → w.read f ≡ some text
        → get_elem? flags i ≡ some false
        → (files' : Intermediates) × (map_task w
              (record { n_reduce = n; filename = f; maptask_id = i })
              (site (mapping (suc i) i flags) files outputs)
            ≡ some (
              map_deeds w n i (f ∷ []),
              site (mapping (suc i) (suc i) (set flags i true)) files' outputs,
            ))
    unfolding map_task
    map_task_lem i f text flags files outputs e reads g =
        let task : MapReply = record { n_reduce = n; filename = f; maptask_id = i } in
        let after = mapping (suc i) (suc i) (set flags i true) in
        let is_set : get_elem? (set flags i true) i ≡ some true =
          get_elem?-set_self flags i true (get_elem?-lt_length flags i false g) in
        elim (Bool-cases (w.is_late_map i)) [
          | inl late ↦
              let (files1, again) = redo_map_lem i f text flags files outputs e reads g in
              let (files2, done) =
                do_map_lem w pid addr up named task text after after files1 outputs reads pos
                  (told_again (suc i) i (set flags i true) is_set) in
              (
                files2,
                rw late (
                    ap
                      (λ (o : Option (List Deed × Site)).
                        and_go_on o λ s1. as_deed (maps task) (do_map w task s1))
                      again
                    ∙ ap (λ (o : Option Site). put_before (maps task ∷ []) (as_deed (maps task) o))
                        done),
              )
          | inr soon ↦
              let (files1, done) =
                do_map_lem w pid addr up named task text (mapping (suc i) i flags) after files
                  outputs reads pos (told_new (suc i) i flags g) in
              (
                files1,
                rw soon (ap (λ (o : Option Site). put_before [] (as_deed (maps task) o)) done),
              )
        ]

    All-at : (i : ℕ) (f : Bytes) → get_elem? names i ≡ some f → IsRead w.read f
    All-at i f e = read_at names all_read i f e
      where
        read_at :
            (fs : List Bytes)
            → All (IsRead w.read) fs
            → (j : ℕ) (g : Bytes) → get_elem? fs j ≡ some g
            → IsRead w.read g
        read_at [] all j g at = ground arith
        read_at (h ∷ fs) all zero g at = subst (IsRead w.read) (some_inj at) all.0
        read_at (h ∷ fs) all (suc j) g at = read_at fs all.1 j g at

    -- The names that are left are those from `i` on.
    pub map_loop_lem :
        (rest : List Bytes) (i : ℕ) (flags : List Bool) (files : Intermediates) (outputs : Outputs)
        → length names ≡ i + length rest
        → ((k : ℕ) → get_elem? names (i + k) ≡ get_elem? rest k)
        → AreUnset i (length names) flags
        → (flags' : List Bool) × (files' : Intermediates) × (map_loop w
              (suc (length rest))
              (site (mapping i i flags) files outputs)
            ≡ some (
              map_deeds w n i rest,
              record {
                left = true;
                site = site (mapping (length names) (length names) flags') files' outputs;
              },
            ))
    unfolding map_loop give_map_task take_map_task no_map_left map_answer
    map_loop_lem [] i flags files outputs all here unset =
        let same : i ≡ length names = omega arith in
        let none_left : leb (length names) i ≡ true = ground arith in
        let given : give_map_task (mapping i i flags) ≡ (eof, mapping i i flags) =
          rw (give_map_task, none_left) in
        (
          flags,
          files,
          ap
                (λ (p : Answer MapReply × Coordinator).
                  map_answer w p.0 (site p.1 files outputs) (map_loop w 0))
                given
              ∙ ap
                  (λ (m : ℕ).
                    some
                      ([], record { left = true; site = site (mapping m m flags) files outputs }))
                  same,
        )
    map_loop_lem (f ∷ fs) i flags files outputs all here unset =
        let lt : i < length names = omega arith in
        let first : get_elem? names i ≡ some f = ap (get_elem? names) (omega arith) ∙ here 0 in
        let more : leb (length names) i ≡ false = ground arith in
        let task : MapReply = record { n_reduce = n; filename = f; maptask_id = i } in
        let given : give_map_task (mapping i i flags) ≡ (reply task, mapping (suc i) i flags) =
          rw (give_map_task, more, first) in
        let (text, reads) = All-at i f first in
        let (files1, done) =
          map_task_lem i f text flags files outputs first reads (unset i (omega arith) lt) in
        let (flags', files', e) =
          map_loop_lem fs (suc i) (set flags i true) files1 outputs (omega arith)
            (λ k. ap (get_elem? names) (omega arith) ∙ here (suc k))
            (AreUnset-set i (length names) flags unset) in
        let rounds = suc (length fs) in
        (
          flags',
          files',
          ap
                (λ (p : Answer MapReply × Coordinator).
                  map_answer w p.0 (site p.1 files outputs) (map_loop w rounds))
                given
              ∙ ap (λ (o : Option (List Deed × Site)). and_go_on o (map_loop w rounds)) done
              ∙ ap (put_before (map_deeds w n i (f ∷ []))) e
              ∙ late_cases (w.is_late_map i) (maps task) (map_deeds w n (suc i) fs) (record {
                left = true;
                site = site (mapping (length names) (length names) flags') files' outputs;
              }),
        )
