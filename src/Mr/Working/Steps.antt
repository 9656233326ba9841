-- ===== src/Mr/Working/Steps.antt =====
-- mr/worker.go with mr/coordinator.go: a task or a redo by a worker that is alone.
use dist_kv_raft.Common.{
  ℕ, zero, suc, ◌≤◌, ◌<◌, ◌==◌, nat_eq, nat_beq_iff, bytes_eq, bytes_beq_iff, if◌then◌else◌, Bool,
  true, false, Option, none, some, List, [], ◌∷◌, Bytes, Dict, get_elem?, get_elem?-set_other, set,
  replicate, ◌≡◌, ◌≢◌, refl, ap, ◌∙◌, arith, Bool-cases, inl, inr,
}
use dist_kv_raft.Mr.Types.{KeyValue, MapReply}
use dist_kv_raft.Mr.Worker.{
  Intermediates, Outputs, bucket_rounds, bucket_by_intermediate_key, map_exec,
}
use dist_kv_raft.Mr.Coordinator.{Coordinator, check_last_map_done}
use dist_kv_raft.Mr.Coordinator.Workers.{Choice, chosen, find_worker, remove_all, choose_worker}
use dist_kv_raft.Mr.Working.{Site, Setting, on_choice, do_map, on_worker}

pub get_elem?-replicate :
    {A : Type 0} (n i : ℕ) (a : A) → i < n → get_elem? (replicate n a) i ≡ some a
get_elem?-replicate zero i a lt = absurd (omega arith)
get_elem?-replicate (suc n) zero a lt = refl
get_elem?-replicate (suc n) (suc i) a lt = get_elem?-replicate n i a (omega arith)

-- The flags from `i` on are not set.
abbrev pub AreUnset : ℕ → ℕ → List Bool → Type 0
AreUnset i n flags = (j : ℕ) → i ≤ j → j < n → get_elem? flags j ≡ some false

pub AreUnset-set :
    (i n : ℕ) (flags : List Bool) → AreUnset i n flags → AreUnset (suc i) n (set flags i true)
AreUnset-set i n flags unset j low lt =
    get_elem?-set_other flags i j true (λ e. absurd (omega (arith, e))) ∙ unset j (omega arith) lt

-- A file that can be read.
abbrev pub IsRead : (Bytes → Option Bytes) → Bytes → Type 0
IsRead read filename = (text : Bytes) × (read filename ≡ some text)

-- With a reduce task no remainder by zero is taken.
bucket_returns :
    (can_open : Bytes → Bool) (t n : ℕ) (kva : List KeyValue) (files : Intermediates)
    → 0 < n
    → (files' : Intermediates) × (bucket_by_intermediate_key can_open t n kva files ≡ some files')
unfolding bucket_by_intermediate_key
bucket_returns can_open t n [] files lt = (files, refl)
bucket_returns can_open t n (kv ∷ kva) files lt =
    let some_tasks : (n == 0) ≡ false = ground (arith, nat_beq_iff n 0) in
    let out =
      (bucket_rounds can_open t n (kv ∷ kva) (record { opened = []; files = files })).files in
    (out, ap (λ (b : Bool). if b then none else some out) some_tasks)

abbrev pub lone_book : ℕ → Bytes → Dict ℕ Bytes
lone_book pid addr = (pid, addr) ∷ []

-- The only worker, if it answers, is the one that is chosen.
pub lone_choice :
    (dials : Bytes → Bool) (pid : ℕ) (addr : Bytes) (c : Coordinator)
    → dials addr ≡ true
    → addr ≢ []
    → choose_worker dials (record c { worker_book = lone_book pid addr })
      ≡ (chosen addr, record c { worker_book = lone_book pid addr })
unfolding choose_worker find_worker remove_all
lone_choice dials pid addr c up named =
    let is_named : (addr == []) ≡ false = elim (Bool-cases (addr == [])) [
      | inl empty ↦ absurd (named ((bytes_beq_iff addr []).0 empty))
      | inr other ↦ other
    ] in
    rw (up, is_named) refl

abbrev pub site : Coordinator → Intermediates → Outputs → Site
site c files outputs = record { coordinator = c; files = files; outputs = outputs }

module _ (w : Setting) (pid : ℕ) (addr : Bytes) (up : w.dials addr ≡ true) (named : addr ≢ []) where
  pub on_worker_lem :
      (run : Site → Option Site) (c : Coordinator) (files : Intermediates) (outputs : Outputs)
      → on_worker w run (record {
        coordinator = record c { worker_book = lone_book pid addr };
        files = files;
        outputs = outputs;
      })
        ≡ run (record {
          coordinator = record c { worker_book = lone_book pid addr };
          files = files;
          outputs = outputs;
        })
  unfolding on_worker
  on_worker_lem run c files outputs =
      ap
        (λ (p : Choice × Coordinator).
          on_choice p.0 run (record { coordinator = p.1; files = files; outputs = outputs }))
        (lone_choice w.dials pid addr c up named)

  -- A task on a file that can be read is done and reported.
  pub do_map_lem :
      (task : MapReply) (text : Bytes) (c c' : Coordinator) (files : Intermediates)
      (outputs : Outputs)
      → w.read task.filename ≡ some text
      → 0 < task.n_reduce
      → (check_last_map_done task.maptask_id c).1 ≡ c'
      → (files' : Intermediates) × (do_map w task (site c files outputs)
          ≡ some (site c' files' outputs))
  unfolding do_map map_exec
  do_map_lem task text c c' files outputs reads pos told =
      let (files', e) =
        bucket_returns w.can_open task.maptask_id task.n_reduce (w.mapf task.filename text) files
          pos in
      (files', rw (do_map, reads, e) (ap (λ (k : Coordinator). some (site k files' outputs)) told))
