-- ===== src/Mr/Worker/Job.antt =====
-- A whole MapReduce job: the map tasks one after the other, and a reduce task over their files.
use dist_kv_raft.Common.{
  ℕ, zero, suc, ◌≤◌, ◌<◌, ◌%◌, ◌==◌, nat_eq, bytes_beq_iff, bytes_eq, if◌then◌else◌, ◌≡◌, ◌≢◌, refl,
  ap, subst, sym, All, Bool-cases, inl, inr, ◌∙◌, true, Option, none, some, List, [], ◌∷◌, ◌++◌,
  Bytes, Dict, lookup, length, arith,
}
use mathlib.Core.Path.{ap₂}
use mathlib.Core.List.{Perm, filter_map}
use mathlib.Core.List.Perm
use dist_kv_raft.Mr.Types.{KeyValue}
use dist_kv_raft.Mr.Json.{decode_pair, decode_pairs, IsText}
use dist_kv_raft.Mr.Names.{intermediate_name, intermediate_name-injective}
use dist_kv_raft.Mr.Worker.{
  ihash, Intermediates, contents, bucket_by_intermediate_key, map_exec, read_all,
  read_intermediates, groups,
}
use dist_kv_raft.Mr.Worker.Split.{in_bucket, written, bucket_files}
use dist_kv_raft.Mr.Worker.Groups.{IsSorted, values_of, group_of, HasOnce, groups_complete}

-- An input file, by its name and its text.
abbrev pub Inputs : Type 0
Inputs = List (Bytes × Bytes)

-- The map tasks from number `i` on, each as the coordinator hands it out.
unfoldable pub run_maps :
    (Bytes → Bytes → List KeyValue) → ℕ → ℕ → Inputs → Intermediates → Option Intermediates
unfolding map_exec
run_maps mapf n i [] files = some files
run_maps mapf n i ((filename, text) ∷ inputs) files =
    elim (map_exec (λ name. true) mapf text
      (record { n_reduce = n; filename = filename; maptask_id = i }) files) [
        | none ↦ none
        | some files' ↦ run_maps mapf n (suc i) inputs files'
      ]

-- The files of reduce task `r`, from map task `i` on.
abbrev pub reduce_files : ℕ → ℕ → ℕ → List Bytes
reduce_files r i zero = []
reduce_files r i (suc m) = intermediate_name i r ∷ reduce_files r (suc i) m

abbrev pub emitted : (Bytes → Bytes → List KeyValue) → Inputs → List KeyValue
emitted mapf [] = []
emitted mapf ((filename, text) ∷ inputs) = mapf filename text ++ emitted mapf inputs

in_bucket-append :
    (n b : ℕ) (xs ys : List KeyValue)
    → in_bucket n b (xs ++ ys) ≡ in_bucket n b xs ++ in_bucket n b ys
in_bucket-append n b [] ys = refl
in_bucket-append n b (x ∷ xs) ys = ground (arith, in_bucket-append n b xs ys)

decode_pairs-append :
    (xs ys : List KeyValue) → decode_pairs (xs ++ ys) ≡ decode_pairs xs ++ decode_pairs ys
unfolding decode_pairs
decode_pairs-append [] ys = refl
decode_pairs-append (x ∷ xs) ys = ap (λ kvs. decode_pair x ∷ kvs) (decode_pairs-append xs ys)

-- Text is read as it was written.
texts_kept :
    (n b : ℕ) (kvs : List KeyValue)
    → All IsText kvs
    → decode_pairs (in_bucket n b kvs) ≡ in_bucket n b kvs
unfolding decode_pairs decode_pair
texts_kept n b [] all = refl
texts_kept n b (kv ∷ kvs) all =
    let rest = texts_kept n b kvs all.1 in
    elim (Bool-cases (ihash kv.key % n == b)) [
      | inl here ↦
          rw here
            (ap₂ ◌∷◌ (ap₂ (λ (k v : Bytes). record { key = k; value = v }) all.0.0 all.0.1) rest)
      | inr there ↦ rw there rest
    ]

run_maps_step :
    (mapf : Bytes → Bytes → List KeyValue) (n i : ℕ) (filename text : Bytes) (inputs : Inputs)
    → (files files' : Intermediates)
    → bucket_by_intermediate_key (λ name. true) i n (mapf filename text) files ≡ some files'
    → run_maps mapf n i ((filename, text) ∷ inputs) files ≡ run_maps mapf n (suc i) inputs files'
unfolding run_maps
run_maps_step mapf n i filename text inputs files files' e = rw (e, run_maps)

contents-written :
    (kvs : List KeyValue) (name : Bytes) (files : Intermediates)
    → lookup name files ≡ written kvs none
    → contents name files ≡ kvs
contents-written [] name files e = rw (e, contents)
contents-written (kv ∷ kvs) name files e = rw (e, contents)

-- No file of reduce task `r` is left over from an earlier job.
abbrev pub IsFresh : ℕ → Intermediates → Type 0
IsFresh r files = (i : ℕ) → lookup (intermediate_name i r) files ≡ none

module _ (mapf : Bytes → Bytes → List KeyValue) (n r : ℕ) (pos : 0 < n) where
  -- The tasks from `i` on leave the files of the tasks below `i` alone.
  record After (i : ℕ) (inputs : Inputs) (files out : Intermediates) : Type 0 where
    ran : run_maps mapf n i inputs files ≡ some out
    earlier :
        (j : ℕ) → j < i → lookup (intermediate_name j r) out ≡ lookup (intermediate_name j r) files
    reads :
        ((j : ℕ) → i ≤ j → lookup (intermediate_name j r) files ≡ none)
        → read_all (reduce_files r i (length inputs)) out
          ≡ decode_pairs (in_bucket n r (emitted mapf inputs))

  run_maps-After :
      (i : ℕ) (inputs : Inputs) (files : Intermediates)
      → (out : Intermediates) × After i inputs files out
  unfolding run_maps read_all decode_pairs
  run_maps-After i [] files =
      (files, record { ran = refl; earlier = λ j lt. refl; reads = λ fresh. refl })
  run_maps-After i ((filename, text) ∷ inputs) files =
      let kva = mapf filename text in
      let (files', e, own, other) = bucket_files (λ name. true) (λ name. refl) i n kva files pos in
      let (out, after) = run_maps-After (suc i) inputs files' in
      let kept : (j : ℕ)
          → j ≢ i
          → lookup (intermediate_name j r) files' ≡ lookup (intermediate_name j r) files =
        λ j ne.
          other (intermediate_name j r)
            (λ b same. ne (sym (intermediate_name-injective i b j r same).0)) in
      (
        out,
        record {
          ran = run_maps_step mapf n i filename text inputs files files' e ∙ after.ran;
          earlier = λ j lt. after.earlier j (omega arith) ∙ kept j (omega arith);
          reads = λ fresh.
              let mine : lookup (intermediate_name i r) out ≡ written (in_bucket n r kva) none =
                after.earlier i (omega arith)
                ∙ own r
                ∙ ap (written (in_bucket n r kva)) (fresh i (omega arith)) in
              let rest = after.reads (λ j le. kept j (omega arith) ∙ fresh j (omega arith)) in
              ap₂ ◌++◌
                (ap decode_pairs
                  (contents-written (in_bucket n r kva) (intermediate_name i r) out mine))
                rest
              ∙ sym (decode_pairs-append (in_bucket n r kva) (in_bucket n r (emitted mapf inputs)))
              ∙ ap decode_pairs (sym (in_bucket-append n r kva (emitted mapf inputs)));
        },
      )

-- What `sort.Sort` promises of `ByKey`. It is not stable, so this does not say which order pairs
-- of one key have.
pub record SortsByKey (sort : List KeyValue → List KeyValue) : Type 0 where
  pub sorted : (kvs : List KeyValue) → IsSorted (sort kvs)
  pub perm : (kvs : List KeyValue) → Perm (sort kvs) kvs

value_under : Bytes → KeyValue → Option Bytes
value_under key kv = if kv.key == key then some kv.value else none

values_of-filter_map :
    (key : Bytes) (kvs : List KeyValue) → values_of key kvs ≡ filter_map (value_under key) kvs
unfolding value_under filter_map
values_of-filter_map key [] = refl
values_of-filter_map key (kv ∷ kvs) = ground (arith, values_of-filter_map key kvs)

pub values_of-perm :
    (key : Bytes) {xs ys : List KeyValue} → Perm xs ys → Perm (values_of key xs) (values_of key ys)
values_of-perm key {xs} {ys} p =
    rw (values_of-filter_map key xs, values_of-filter_map key ys)
      (Perm.filter_map (value_under key) p)

values_of-in_bucket :
    (n r : ℕ) (key : Bytes) (kvs : List KeyValue)
    → ihash key % n ≡ r
    → values_of key (in_bucket n r kvs) ≡ values_of key kvs
values_of-in_bucket n r key [] e = refl
values_of-in_bucket n r key (kv ∷ kvs) e =
    ground (arith, values_of-in_bucket n r key kvs e, bytes_beq_iff kv.key key)

values_of-in_bucket_ne :
    (n r : ℕ) (key : Bytes) (kvs : List KeyValue)
    → ihash key % n ≢ r
    → values_of key (in_bucket n r kvs) ≡ []
values_of-in_bucket_ne n r key [] e = refl
values_of-in_bucket_ne n r key (kv ∷ kvs) e =
    ground (arith, values_of-in_bucket_ne n r key kvs e, bytes_beq_iff kv.key key)

perm_nil : {xs ys : List Bytes} → Perm xs ys → ys ≡ [] → xs ≡ []
perm_nil p e = Perm.eq-nil (subst (Perm _) e p)

-- What reduce task `r` of `n` groups, on the files that the map tasks left.
abbrev pub reduced :
    (List KeyValue → List KeyValue) → ℕ → ℕ → Intermediates → Dict Bytes (List Bytes)
reduced sort r m out = groups (read_intermediates sort (reduce_files r 0 m) out)

module _ (mapf : Bytes → Bytes → List KeyValue) (sort : List KeyValue → List KeyValue) (n r : ℕ)
    (inputs : Inputs) (files : Intermediates) where
  -- A job on `n` reduce tasks, at least one, in a directory with no file of reduce task `r` left
  -- over, where every file can be opened, and all keys and values that are emitted are valid UTF-8:
  -- the map tasks do not panic, and the reduce task then
  -- calls `reducef` at most once for each key. For a key whose hash falls to `r` it does so with a
  -- permutation of the values that all map tasks emitted under the key, if there are any, and for
  -- no other key.
  pub job_correct :
      0 < n
      → SortsByKey sort
      → IsFresh r files
      → All IsText (emitted mapf inputs)
      → (out : Intermediates) × (run_maps mapf n 0 inputs files ≡ some out)
        × HasOnce (reduced sort r (length inputs) out)
        × ((key : Bytes)
            → ihash key % n ≡ r
            → (vs : List Bytes) × (lookup key (reduced sort r (length inputs) out) ≡ group_of vs)
              × Perm vs (values_of key (emitted mapf inputs)))
        × ((key : Bytes)
            → ihash key % n ≢ r
            → lookup key (reduced sort r (length inputs) out) ≡ none)
  unfolding read_intermediates
  job_correct pos sorts fresh texts =
      let (out, after) = run_maps-After mapf n r pos 0 inputs files in
      let read = read_all (reduce_files r 0 (length inputs)) out in
      let all : read ≡ in_bucket n r (emitted mapf inputs) =
        after.reads (λ j le. fresh j) ∙ texts_kept n r (emitted mapf inputs) texts in
      let (once, found) = groups_complete (sort read) (sorts.sorted read) in
      let moved : (key : Bytes)
          → Perm (values_of key (sort read)) (values_of key (in_bucket n r (emitted mapf inputs))) =
        λ key.
          subst (λ kvs. Perm (values_of key (sort read)) (values_of key kvs)) all
            (values_of-perm key (sorts.perm read)) in
      (
        out,
        after.ran,
        once,
        (λ key e. (
          values_of key (sort read),
          found key,
          subst (Perm _) (values_of-in_bucket n r key (emitted mapf inputs) e) (moved key),
        )),
        (λ key e.
            found key
            ∙ ap group_of
                (perm_nil (moved key) (values_of-in_bucket_ne n r key (emitted mapf inputs) e))),
      )
