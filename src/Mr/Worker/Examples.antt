-- ===== src/Mr/Worker/Examples.antt =====
-- Runs of the worker on small inputs, and its theorems at concrete inputs.
use mathlib.Core.List.{Perm}
use mathlib.Core.List.Perm
use dist_kv_raft.Common.{
  ℕ, ◌%◌, nat_eq, bytes_beq, bytes_eq, if◌then◌else◌, ◌≡◌, ◌≢◌, refl, true, false, none, some, List,
  [], ◌∷◌, ◌++◌, Bytes, lookup, insert, arith, All, Bool-cases, inl, inr,
}
use dist_kv_raft.Mr.Types.{KeyValue}
use dist_kv_raft.Mr.Json.{coerce_from, IsText}
use dist_kv_raft.Mr.Names.{intermediate_name, out_name}
use dist_kv_raft.Mr.Worker.{
  bytes_ltb, less, ihash, Intermediates, bucket_by_intermediate_key, groups, reduce_exec,
}
use dist_kv_raft.Mr.Worker.Groups.{
  IsSorted, HasOnce, values_of, group_of, ungroup, ungroup-groups, groups_complete,
}
use dist_kv_raft.Mr.Worker.Split.{in_bucket, written, everything, bucket_files}
use dist_kv_raft.Mr.Worker.Job.{
  Inputs, run_maps, emitted, IsFresh, SortsByKey, reduced, job_correct,
}

abbrev pair : Bytes → Bytes → KeyValue
pair k v = record { key = k; value = v }

abbrev a : Bytes
a = b'a' ∷ []

abbrev b : Bytes
b = b'b' ∷ []

abbrev x : Bytes
x = b'x' ∷ []

abbrev y : Bytes
y = b'y' ∷ []

-- The test vector of the 32-bit FNV-1a hash for "a", less its top bit.
ihash-a : ihash a ≡ 1678518572
unfolding ihash
ihash-a = refl

sort_insert : KeyValue → List KeyValue → List KeyValue
sort_insert kv [] = kv ∷ []
sort_insert kv (k ∷ ks) = if less k kv then k ∷ sort_insert kv ks else kv ∷ k ∷ ks

sort : List KeyValue → List KeyValue
unfolding sort_insert
sort [] = []
sort (kv ∷ kvs) = sort_insert kv (sort kvs)

not_less_trans :
    (p q r : Bytes) → bytes_ltb r q ≡ false → bytes_ltb q p ≡ false → bytes_ltb r p ≡ false
unfolding bytes_ltb
not_less_trans [] [] [] h k = refl
not_less_trans [] [] (z ∷ r) h k = refl
not_less_trans [] (q₁ ∷ q) [] h k = ground arith
not_less_trans [] (q₁ ∷ q) (z ∷ r) h k = refl
not_less_trans (p₁ ∷ p) [] [] h k = ground arith
not_less_trans (p₁ ∷ p) [] (z ∷ r) h k = ground arith
not_less_trans (p₁ ∷ p) (q₁ ∷ q) [] h k = ground arith
not_less_trans (p₁ ∷ p) (q₁ ∷ q) (z ∷ r) h k = ground (arith, not_less_trans p q r)

less_asymm : (p q : Bytes) → bytes_ltb p q ≡ true → bytes_ltb q p ≡ false
unfolding bytes_ltb
less_asymm [] [] h = ground arith
less_asymm [] (q₁ ∷ q) h = refl
less_asymm (p₁ ∷ p) [] h = ground arith
less_asymm (p₁ ∷ p) (q₁ ∷ q) h = ground (arith, less_asymm p q)

sort_insert_above :
    (k kv : KeyValue) (ks : List KeyValue)
    → less kv k ≡ false
    → All (λ later. less later k ≡ false) ks
    → All (λ later. less later k ≡ false) (sort_insert kv ks)
unfolding sort_insert
sort_insert_above k kv [] h all = (h, tt)
sort_insert_above k kv (l ∷ ks) h all = ground (arith, sort_insert_above k kv ks h all.1)

above_trans :
    (k kv : KeyValue) (ks : List KeyValue)
    → less k kv ≡ false
    → All (λ later. less later k ≡ false) ks
    → All (λ later. less later kv ≡ false) ks
above_trans k kv [] h all = tt
above_trans k kv (l ∷ ks) h all =
    (not_less_trans kv.key k.key l.key all.0 h, above_trans k kv ks h all.1)

sort_insert-IsSorted :
    (kv : KeyValue) (ks : List KeyValue) → IsSorted ks → IsSorted (sort_insert kv ks)
unfolding sort_insert
sort_insert-IsSorted kv [] s = (tt, tt)
sort_insert-IsSorted kv (k ∷ ks) s = elim (Bool-cases (less k kv)) [
  | inl e ↦
      rw (e, sort_insert)
        (sort_insert_above k kv ks (less_asymm k.key kv.key e) s.0, sort_insert-IsSorted kv ks s.1)
  | inr e ↦ rw (e, sort_insert) ((e, above_trans k kv ks e s.0), s)
]

sort-IsSorted : (kvs : List KeyValue) → IsSorted (sort kvs)
unfolding sort
sort-IsSorted [] = tt
sort-IsSorted (kv ∷ kvs) = sort_insert-IsSorted kv (sort kvs) (sort-IsSorted kvs)

sort_insert-perm : (kv : KeyValue) (ks : List KeyValue) → Perm (sort_insert kv ks) (kv ∷ ks)
unfolding sort_insert
sort_insert-perm kv [] = Perm.rfl
sort_insert-perm kv (k ∷ ks) = elim (Bool-cases (less k kv)) [
  | inl e ↦
      rw (e, sort_insert) (Perm.trans (Perm.cons k (sort_insert-perm kv ks)) (Perm.swap kv k ks))
  | inr e ↦ rw (e, sort_insert) Perm.rfl
]

sort-perm : (kvs : List KeyValue) → Perm (sort kvs) kvs
unfolding sort
sort-perm [] = Perm.rfl
sort-perm (kv ∷ kvs) = Perm.trans (sort_insert-perm kv (sort kvs)) (Perm.cons kv (sort-perm kvs))

sort-SortsByKey : SortsByKey sort
sort-SortsByKey = record { sorted = sort-IsSorted; perm = sort-perm }

abbrev sample : List KeyValue
sample = pair a x ∷ pair a y ∷ pair b x ∷ []

groups-sample : groups sample ≡ (a, x ∷ y ∷ []) ∷ (b, x ∷ []) ∷ []
unfolding groups bytes_beq
groups-sample = refl

sample-IsSorted : IsSorted sample
unfolding bytes_ltb
sample-IsSorted = ((refl, (refl, tt)), ((refl, tt), (tt, tt)))

ungroup-groups_example : ungroup (groups sample) ≡ sample
ungroup-groups_example = ungroup-groups sample

groups_complete_example :
    HasOnce (groups sample)
    × ((key : Bytes) → lookup key (groups sample) ≡ group_of (values_of key sample))
groups_complete_example = groups_complete sample sample-IsSorted

bucket_files_example :
    (files : Intermediates) × (bucket_by_intermediate_key everything 1 2 sample [] ≡ some files)
    × ((j : ℕ)
        → lookup (intermediate_name 1 j) files
          ≡ written (in_bucket 2 j sample) (lookup (intermediate_name 1 j) []))
    × ((name : Bytes)
        → ((j : ℕ) → intermediate_name 1 j ≢ name)
        → lookup name files ≡ lookup name [])
bucket_files_example = bucket_files everything (λ name. refl) 1 2 sample [] (omega arith)

abbrev one_file : Intermediates
one_file = (intermediate_name 0 0, sample) ∷ []

one_bucket : bucket_by_intermediate_key everything 0 1 sample [] ≡ some one_file
unfolding bucket_by_intermediate_key ihash intermediate_name lookup insert bytes_beq
one_bucket = refl

one_bucket_again : bucket_by_intermediate_key everything 0 1 sample one_file ≡ some one_file
unfolding bucket_by_intermediate_key ihash intermediate_name lookup insert bytes_beq
one_bucket_again = refl

-- Each byte of the text under the key that is the byte alone, with the file's name for a value.
abbrev mapf : Bytes → Bytes → List KeyValue
mapf name [] = []
mapf name (c ∷ cs) = pair (c ∷ []) name ∷ mapf name cs

abbrev inputs : Inputs
inputs = (x, b'a' ∷ b'b' ∷ []) ∷ (y, b'b' ∷ []) ∷ []

nothing_left : IsFresh 0 []
unfolding lookup
nothing_left i = refl

inputs_emit-IsText : All IsText (emitted mapf inputs)
unfolding coerce_from
inputs_emit-IsText = ((refl, refl), ((refl, refl), ((refl, refl), tt)))

job_correct_example :
    (out : Intermediates) × (run_maps mapf 2 0 inputs [] ≡ some out)
    × HasOnce (reduced sort 0 2 out)
    × ((key : Bytes)
        → ihash key % 2 ≡ 0
        → (vs : List Bytes) × (lookup key (reduced sort 0 2 out) ≡ group_of vs)
          × Perm vs (values_of key (emitted mapf inputs)))
    × ((key : Bytes) → ihash key % 2 ≢ 0 → lookup key (reduced sort 0 2 out) ≡ none)
job_correct_example =
    job_correct mapf sort 2 0 inputs [] (omega arith) sort-SortsByKey nothing_left
      inputs_emit-IsText

concat : Bytes → List Bytes → Bytes
concat key [] = []
concat key (v ∷ vs) = v ++ concat key vs

-- "a x" and "b yx" on two lines.
reduce_exec-sample :
    reduce_exec sort concat 3
      (intermediate_name 0 0 ∷ [])
      ((intermediate_name 0 0, pair b y ∷ pair a x ∷ pair b x ∷ []) ∷ [])
      []
    ≡ (out_name 3, b'a' ∷ b' ' ∷ b'x' ∷ b'\n' ∷ b'b' ∷ b' ' ∷ b'y' ∷ b'x' ∷ b'\n' ∷ []) ∷ []
unfolding reduce_exec coerce_from sort concat bytes_ltb intermediate_name out_name lookup insert
    bytes_beq
reduce_exec-sample = refl
