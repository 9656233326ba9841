-- ===== src/Mr/Coordinator/Workers.antt =====
-- callWorker of mr/coordinator.go: which worker is asked to redo a task.
use dist_kv_raft.Common.{
  ℕ, ◌≡◌, refl, ap, ◌∙◌, ◌⊎◌, Bool, true, false, none, some, List, [], ◌∷◌, Bytes, Dict,
  if◌then◌else◌, bytes_beq, bytes_beq_iff, ◌==◌, bytes_eq, lookup, remove, lookup-remove, nat_eq,
  arith, All, Bool-cases, inl, inr,
}
use dist_kv_raft.Mr.Coordinator.{Coordinator}

-- The loop over the book, in the order in which the map yields its entries. `dials` says which
-- addresses answer. The result is the address found, "" if none was, and the workers to delete.
module _ (dials : Bytes → Bool) where
  unfoldable pub find_worker : Dict ℕ Bytes → Bytes × List ℕ
  find_worker [] = ([], [])
  find_worker ((pid, addr) ∷ book) =
      let (found, dead) = find_worker book in if dials addr then (addr, []) else (found, pid ∷ dead)

unfoldable pub remove_all : List ℕ → Dict ℕ Bytes → Dict ℕ Bytes
remove_all [] book = book
remove_all (pid ∷ pids) book = remove_all pids (remove pid book)

-- `log.Fatal` ends the process.
pub data Choice : Type 0 where
  chosen : Bytes → Choice
  fatal : Choice

-- `callWorker` up to its RPC.
unfoldable pub choose_worker : (Bytes → Bool) → Coordinator → Choice × Coordinator
unfolding find_worker remove_all
choose_worker dials c =
    let (addr, dead) = find_worker dials c.worker_book in
    let c' = record c { worker_book = remove_all dead c.worker_book } in
    if addr == [] then (fatal, c') else (chosen addr, c')

abbrev pub NoneDials : (Bytes → Bool) → Dict ℕ Bytes → Type 0
NoneDials dials [] = Unit
NoneDials dials ((pid, addr) ∷ book) = (dials addr ≡ false) × NoneDials dials book

-- Each process is registered once.
abbrev pub Once : Dict ℕ Bytes → Type 0
Once [] = Unit
Once ((pid, addr) ∷ book) = (lookup pid book ≡ none) × Once book

abbrev Spares : ℕ → List ℕ → Type 0
Spares pid = All (λ p. (p == pid) ≡ false)

module _ (dials : Bytes → Bool) where
  found_worker :
      (book : Dict ℕ Bytes)
      → Once book
      → ((dials (find_worker dials book).0 ≡ true)
          × ((pid : ℕ) × (lookup pid book ≡ some (find_worker dials book).0)))
        ⊎ (NoneDials dials book × ((find_worker dials book).0 ≡ []))
  unfolding find_worker lookup
  found_worker [] once = inr (tt, refl)
  found_worker ((pid, addr) ∷ book) once = elim (Bool-cases (dials addr)) [
    | inl e ↦ inl (ground arith, (pid, ground arith))
    | inr e ↦ elim (found_worker book once.1) [
      | inl (d, (p, l)) ↦ inl (ground arith, (p, ground arith))
      | inr (d, l) ↦ inr ((e, d), ground arith)
    ]
  ]

  find_worker-Spares :
      (book : Dict ℕ Bytes) (pid : ℕ) (addr : Bytes)
      → lookup pid book ≡ some addr
      → dials addr ≡ true
      → Spares pid (find_worker dials book).1
  unfolding find_worker lookup
  find_worker-Spares [] pid addr l d = tt
  find_worker-Spares ((p, a) ∷ book) pid addr l d = elim (Bool-cases (dials a)) [
    | inl e ↦ rw (e, find_worker) tt
    | inr e ↦ rw (e, find_worker) (ground arith, find_worker-Spares book pid addr (ground arith) d)
  ]

lookup-remove_all :
    (pid : ℕ) (pids : List ℕ) (book : Dict ℕ Bytes)
    → Spares pid pids
    → lookup pid (remove_all pids book) ≡ lookup pid book
unfolding remove_all
lookup-remove_all pid [] book s = refl
lookup-remove_all pid (p ∷ pids) book s =
    lookup-remove_all pid pids (remove p book) s.1 ∙ ground (arith, s.0, lookup-remove p pid book)

-- What a choice promises of the book that it was made from.
abbrev pub IsRight : (Bytes → Bool) → Dict ℕ Bytes → Choice → Type 0
IsRight dials book (chosen addr) = (dials addr ≡ true) × ((pid : ℕ) × (lookup pid book ≡ some addr))
IsRight dials book fatal = NoneDials dials book

-- If the empty address never answers, callWorker picks a registered worker that answers, and gives
-- up only if none does, in whatever order it meets them. It forgets no worker that answers.
pub choose_worker_lem :
    (dials : Bytes → Bool) (c : Coordinator)
    → Once c.worker_book
    → dials [] ≡ false
    → IsRight dials c.worker_book (choose_worker dials c).0
      × ((pid : ℕ) (addr : Bytes)
          → lookup pid c.worker_book ≡ some addr
          → dials addr ≡ true
          → lookup pid (choose_worker dials c).1.worker_book ≡ some addr)
unfolding choose_worker bytes_beq
choose_worker_lem dials c once empty = (
  right,
  λ pid addr l d.
      ap (lookup pid) same_book
      ∙ lookup-remove_all pid dead c.worker_book
          (find_worker-Spares dials c.worker_book pid addr l d)
      ∙ l,
)
  where
    found : Bytes
    found = (find_worker dials c.worker_book).0

    dead : List ℕ
    dead = (find_worker dials c.worker_book).1

    same_book : (choose_worker dials c).1.worker_book ≡ remove_all dead c.worker_book
    same_book = ground arith

    right : IsRight dials c.worker_book (choose_worker dials c).0
    right = elim (found_worker dials c.worker_book once) [
      | inl (d, l) ↦
          let nonempty : (found == []) ≡ false = ground (arith, bytes_beq_iff found []) in
          rw (nonempty, choose_worker) (d, l)
      | inr (d, e) ↦ rw (e, choose_worker) d
    ]
