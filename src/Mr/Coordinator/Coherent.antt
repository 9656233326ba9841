-- ===== src/Mr/Coordinator/Coherent.antt =====
-- The counters of mr/coordinator.go agree with its flags, while calls do not overlap.
use dist_kv_raft.Common.{
  ℕ, zero, suc, ◌≤◌, nat_eq, ◌≡◌, ◌↔◌, refl, ap, sym, ◌∙◌, Bool, true, false, some, List, [], ◌∷◌,
  Bytes, length, length-replicate, length-set, get_elem?, get_elem?-lt_length, set, replicate, All,
  arith,
}
use dist_kv_raft.Mr.Coordinator.{
  Coordinator, make_coordinator, is_done, Call, registers, asks_map, asks_reduce, ends_map,
  ends_reduce, handle, serve,
}

-- How many flags are set.
abbrev pub count_true : List Bool → ℕ
count_true [] = 0
count_true (true ∷ bs) = suc (count_true bs)
count_true (false ∷ bs) = count_true bs

abbrev pub AllTrue : List Bool → Type 0
AllTrue bs = All (λ b. b ≡ true) bs

pub record IsCoherent (files : List Bytes) (n : ℕ) (c : Coordinator) : Type 0 where
  pub same_files : c.filenames ≡ files
  pub same_tasks : c.n_reduce ≡ n
  pub maps : length c.map_complete ≡ length c.filenames
  pub reduces : length c.reduce_complete ≡ c.n_reduce
  pub maps_done : c.done_map ≡ count_true c.map_complete
  pub reduces_done : c.done_reduce ≡ count_true c.reduce_complete
  pub maps_given : c.counter_map ≤ length c.filenames
  pub reduces_given : c.counter_reduce ≤ c.n_reduce

pub count_true-set :
    (bs : List Bool) (i : ℕ)
    → get_elem? bs i ≡ some false
    → count_true (set bs i true) ≡ suc (count_true bs)
count_true-set [] i e = ground arith
count_true-set (b ∷ bs) zero e = ground arith
count_true-set (true ∷ bs) (suc i) e = ap suc (count_true-set bs i e)
count_true-set (false ∷ bs) (suc i) e = count_true-set bs i e

pub count_true-le-length : (bs : List Bool) → count_true bs ≤ length bs
count_true-le-length [] = omega arith
count_true-le-length (true ∷ bs) = omega (arith, count_true-le-length bs)
count_true-le-length (false ∷ bs) = omega (arith, count_true-le-length bs)

AllTrue-of_count : (bs : List Bool) → count_true bs ≡ length bs → AllTrue bs
AllTrue-of_count [] e = tt
AllTrue-of_count (true ∷ bs) e = (refl, AllTrue-of_count bs (omega arith))
AllTrue-of_count (false ∷ bs) e = absurd (omega (arith, count_true-le-length bs))

pub count_of_AllTrue : (bs : List Bool) → AllTrue bs → count_true bs ≡ length bs
count_of_AllTrue [] h = refl
count_of_AllTrue (b ∷ bs) h = ground (arith, count_of_AllTrue bs h.1)

count_true-replicate : (n : ℕ) → count_true (replicate n false) ≡ 0
count_true-replicate zero = refl
count_true-replicate (suc n) = count_true-replicate n

pub IsCoherent-make_coordinator :
    (files : List Bytes) (n : ℕ) → IsCoherent files n (make_coordinator files n)
unfolding make_coordinator
IsCoherent-make_coordinator files n = record {
  same_files = refl;
  same_tasks = refl;
  maps = length-replicate (length files) false;
  reduces = length-replicate n false;
  maps_done = sym (count_true-replicate (length files));
  reduces_done = sym (count_true-replicate n);
  maps_given = omega arith;
  reduces_given = omega arith;
}

module _ (files : List Bytes) (n : ℕ) where
  -- Every call keeps the counters in step with the flags and within the numbers of tasks.
  pub IsCoherent-handle :
      (call : Call) (c : Coordinator) → IsCoherent files n c → IsCoherent files n (handle call c)
  unfolding handle
  IsCoherent-handle (registers args) c v = ground arith
  IsCoherent-handle asks_map c v = ground (arith, get_elem?-lt_length c.filenames c.counter_map)
  IsCoherent-handle asks_reduce c v = ground arith
  IsCoherent-handle (ends_map id) c v =
      ground (arith, count_true-set c.map_complete id, length-set c.map_complete id true)
  IsCoherent-handle (ends_reduce id) c v =
      ground (arith, count_true-set c.reduce_complete id, length-set c.reduce_complete id true)

  pub IsCoherent-serve :
      (calls : List Call) (c : Coordinator)
      → IsCoherent files n c
      → IsCoherent files n (serve calls c)
  unfolding serve
  IsCoherent-serve [] c v = v
  IsCoherent-serve (call ∷ calls) c v =
      IsCoherent-serve calls (handle call c) (IsCoherent-handle call c v)

  pub maps_done→AllTrue :
      (c : Coordinator) → IsCoherent files n c → c.done_map ≡ length files → AllTrue c.map_complete
  maps_done→AllTrue c v e =
      AllTrue-of_count c.map_complete
        (sym v.maps_done ∙ e ∙ ap length (sym v.same_files) ∙ sym v.maps)

  is_done_iff_AllTrue :
      (c : Coordinator)
      → IsCoherent files n c
      → (is_done c ≡ true) ↔ (AllTrue c.map_complete × AllTrue c.reduce_complete)
  unfolding is_done
  is_done_iff_AllTrue c v = (
    (λ e. (
      AllTrue-of_count c.map_complete (ground arith),
      AllTrue-of_count c.reduce_complete (ground arith),
    )),
    (λ h.
        ground
          (arith, count_of_AllTrue c.map_complete h.0, count_of_AllTrue c.reduce_complete h.1)),
  )

  -- Whatever calls workers make, one after the other, `Done` answers true exactly when the flags
  -- of all map tasks and of all reduce tasks are set.
  pub is_done_iff :
      (calls : List Call)
      → let c = serve calls (make_coordinator files n) in
        (is_done c ≡ true) ↔ (AllTrue c.map_complete × AllTrue c.reduce_complete)
  is_done_iff calls =
      is_done_iff_AllTrue (serve calls (make_coordinator files n))
        (IsCoherent-serve calls _ (IsCoherent-make_coordinator files n))
