-- ===== src/Mr/Worker.antt =====
-- mr/worker.go: how a worker splits the pairs that `mapf` emits over the reduce tasks, and how it
-- groups them for `reducef`.
pub mod Groups
pub mod Split
pub mod Job
mod Examples
use Prim.Native.Nat.{bit_xor}
use dist_kv_raft.Common.{
  ℕ, zero, suc, ◌+◌, ◌*◌, ◌%◌, ◌^◌, ltb, ◌==◌, nat_beq, nat_eq, bytes_beq, bytes_eq, if◌then◌else◌,
  Bool, true, false, Option, none, some, List, [], ◌∷◌, ◌++◌, Bytes, Dict, lookup, insert, length,
}
use dist_kv_raft.Mr.Types.{KeyValue, MapReply, ReduceReply}
use dist_kv_raft.Mr.Json.{decode_pairs}
use dist_kv_raft.Mr.Names.{intermediate_name, out_name}

-- `<` on strings, byte by byte.
unfoldable pub bytes_ltb : Bytes → Bytes → Bool
bytes_ltb [] [] = false
bytes_ltb [] (y ∷ ys) = true
bytes_ltb (x ∷ xs) [] = false
bytes_ltb (x ∷ xs) (y ∷ ys) =
    let rest = bytes_ltb xs ys in if ltb x y then true else if ltb y x then false else rest

-- `ByKey.Less`
abbrev pub less : KeyValue → KeyValue → Bool
less a b = bytes_ltb a.key b.key

-- FNV-1a over 32 bits.
unfoldable pub fnv1a : ℕ → Bytes → ℕ
fnv1a h [] = h
fnv1a h (c ∷ cs) = fnv1a (bit_xor h c * 16777619 % 2 ^ 32) cs

-- `h.Sum32() & 0x7fffffff`
unfoldable pub ihash : Bytes → ℕ
unfolding fnv1a
ihash key = fnv1a 2166136261 key % 2 ^ 31

-- An intermediate file is the sequence of pairs that its JSON encoder wrote, an output file its
-- bytes.
abbrev pub Intermediates : Type 0
Intermediates = Dict Bytes (List KeyValue)

abbrev pub Outputs : Type 0
Outputs = Dict Bytes Bytes

abbrev pub contents : Bytes → Intermediates → List KeyValue
contents name files = elim (lookup name files) [ none ↦ [] | some kvs ↦ kvs ]

-- `opened` holds the buckets whose file this call has opened.
pub record Buckets : Type 0 where
  pub opened : Dict ℕ Bytes
  pub files : Intermediates

-- `can_open` says which files the operating system lets the worker open for writing.
module _ (can_open : Bytes → Bool) (task_id n_reduce : ℕ) where
  unfoldable pub write : ℕ → KeyValue → Buckets → Buckets
  write ibucket kv s = elim (lookup ibucket s.opened) [
    | none ↦ s
    | some name ↦ record s { files = insert name (contents name s.files ++ kv ∷ []) s.files }
  ]

  -- One round of the loop. A pair whose file cannot be opened is left out.
  unfoldable pub bucket_round : KeyValue → Buckets → Buckets
  unfolding write
  bucket_round kv s =
      let ibucket = ihash kv.key % n_reduce in
      let name = intermediate_name task_id ibucket in
      elim (lookup ibucket s.opened) [
        | some _ ↦ write ibucket kv s
        | none ↦
            if can_open name
            then write ibucket kv
                (record { opened = insert ibucket name s.opened; files = insert name [] s.files })
            else s
      ]

  unfoldable pub bucket_rounds : List KeyValue → Buckets → Buckets
  unfolding bucket_round
  bucket_rounds [] s = s
  bucket_rounds (kv ∷ kva) s = bucket_rounds kva (bucket_round kv s)

  -- The files after the call; `none` where the remainder by zero panics.
  unfoldable pub bucket_by_intermediate_key : List KeyValue → Intermediates → Option Intermediates
  unfolding bucket_rounds
  bucket_by_intermediate_key [] files = some files
  bucket_by_intermediate_key (kv ∷ kva) files =
      if n_reduce == 0
      then none
      else some (bucket_rounds (kv ∷ kva) (record { opened = []; files = files })).files

-- What is left of the map task once its input has been read as `content`.
unfoldable pub map_exec :
    (Bytes → Bool)
    → (Bytes → Bytes → List KeyValue)
    → Bytes
    → MapReply
    → Intermediates
    → Option Intermediates
unfolding bucket_by_intermediate_key
map_exec can_open mapf content reply files =
    bucket_by_intermediate_key can_open reply.maptask_id reply.n_reduce
      (mapf reply.filename content) files

-- The files that are read, one after the other; one that cannot be opened gives nothing.
unfoldable pub read_all : List Bytes → Intermediates → List KeyValue
unfolding decode_pairs
read_all [] files = []
read_all (name ∷ names) files = decode_pairs (contents name files) ++ read_all names files

-- `sort` is `sort.Sort(ByKey(...))`.
unfoldable pub read_intermediates :
    (List KeyValue → List KeyValue) → List Bytes → Intermediates → List KeyValue
unfolding read_all
read_intermediates sort names files = sort (read_all names files)

-- The `for j` loop: the values up to the first pair of another key, and the pairs from there on.
unfoldable pub span : Bytes → List KeyValue → List Bytes × List KeyValue
span key [] = ([], [])
span key (kv ∷ kvs) =
    let (values, rest) = span key kvs in
    if kv.key == key then (kv.value ∷ values, rest) else ([], kv ∷ kvs)

-- The `for i` loop, as the keys and values that it hands to `reducef`. Each round shortens the
-- list, so its length is fuel enough.
unfoldable pub groups_loop : ℕ → List KeyValue → Dict Bytes (List Bytes)
unfolding span
groups_loop zero kvs = []
groups_loop (suc fuel) [] = []
groups_loop (suc fuel) (kv ∷ kvs) =
    let (values, rest) = span kv.key kvs in (kv.key, kv.value ∷ values) ∷ groups_loop fuel rest

unfoldable pub groups : List KeyValue → Dict Bytes (List Bytes)
unfolding groups_loop
groups kvs = groups_loop (length kvs) kvs

-- A line is the key, a blank, and what `reducef` returned.
unfoldable pub output_lines : (Bytes → List Bytes → Bytes) → Dict Bytes (List Bytes) → Bytes
output_lines reducef [] = []
output_lines reducef ((key, values) ∷ rest) =
    key ++ b' ' ∷ (reducef key values ++ b'\n' ∷ output_lines reducef rest)

unfoldable pub perform_reduce :
    (Bytes → List Bytes → Bytes) → List KeyValue → Bytes → Outputs → Outputs
unfolding groups output_lines
perform_reduce reducef intermediate ofile_name outputs =
    insert ofile_name (output_lines reducef (groups intermediate)) outputs

unfoldable pub reduce_exec :
    (List KeyValue → List KeyValue)
    → (Bytes → List Bytes → Bytes)
    → ℕ
    → List Bytes
    → Intermediates
    → Outputs
    → Outputs
unfolding read_intermediates perform_reduce
reduce_exec sort reducef reducetask_id reducefiles files outputs =
    perform_reduce reducef (read_intermediates sort reducefiles files) (out_name reducetask_id)
      outputs
