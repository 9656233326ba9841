-- ===== src/Mr/Worker/Groups.antt =====
-- The grouping loop of perform_reduce in mr/worker.go.
use dist_kv_raft.Common.{
  ℕ, zero, suc, ◌≤◌, ◌==◌, bytes_beq, bytes_beq_iff, bytes_eq, if◌then◌else◌, ◌≡◌, refl, ap, sym,
  ◌∙◌, false, Option, none, some, List, [], ◌∷◌, ◌++◌, Bytes, Dict, lookup, length, arith, All,
  Bool-cases, inl, inr,
}
use dist_kv_raft.Mr.Types.{KeyValue}
use dist_kv_raft.Mr.Worker.{bytes_ltb, less, span, groups_loop, groups}

-- Go's `sort.Sort` leaves no pair that is less than one before it.
abbrev pub IsSorted : List KeyValue → Type 0
IsSorted [] = Unit
IsSorted (kv ∷ kvs) = All (λ later. less later kv ≡ false) kvs × IsSorted kvs

-- The values under a key, in order.
abbrev pub values_of : Bytes → List KeyValue → List Bytes
values_of key [] = []
values_of key (kv ∷ kvs) =
    let rest = values_of key kvs in if kv.key == key then kv.value ∷ rest else rest

abbrev pub group_of : List Bytes → Option (List Bytes)
group_of [] = none
group_of (v ∷ vs) = some (v ∷ vs)

abbrev pub pairs : Bytes → List Bytes → List KeyValue
pairs key [] = []
pairs key (v ∷ vs) = record { key = key; value = v } ∷ pairs key vs

abbrev pub ungroup : Dict Bytes (List Bytes) → List KeyValue
ungroup [] = []
ungroup ((key, values) ∷ gs) = pairs key values ++ ungroup gs

abbrev pub HasOnce : Dict Bytes (List Bytes) → Type 0
HasOnce [] = Unit
HasOnce ((key, values) ∷ gs) = (lookup key gs ≡ none) × HasOnce gs

bytes_total : (a b : Bytes) → bytes_ltb a b ≡ false → bytes_ltb b a ≡ false → a ≡ b
unfolding bytes_ltb
bytes_total [] [] p q = refl
bytes_total [] (y ∷ b) p q = ground arith
bytes_total (x ∷ a) [] p q = ground arith
bytes_total (x ∷ a) (y ∷ b) p q = ground (arith, bytes_total a b)

length-span : (key : Bytes) (kvs : List KeyValue) → length (span key kvs).1 ≤ length kvs
unfolding span
length-span key [] = omega arith
length-span key (kv ∷ kvs) = ground (arith, length-span key kvs)

pairs-span :
    (key : Bytes) (kvs : List KeyValue) → pairs key (span key kvs).0 ++ (span key kvs).1 ≡ kvs
unfolding span
pairs-span key [] = refl
pairs-span key (kv ∷ kvs) = ground (arith, pairs-span key kvs, bytes_beq_iff kv.key key)

values_of-span_ne :
    (key k : Bytes) (kvs : List KeyValue)
    → bytes_beq key k ≡ false
    → values_of k (span key kvs).1 ≡ values_of k kvs
unfolding span
values_of-span_ne key k [] ne = refl
values_of-span_ne key k (kv ∷ kvs) ne =
    ground (arith, values_of-span_ne key k kvs, bytes_beq_iff kv.key key)

IsSorted-span : (key : Bytes) (kvs : List KeyValue) → IsSorted kvs → IsSorted (span key kvs).1
unfolding span
IsSorted-span key [] s = tt
IsSorted-span key (kv ∷ kvs) s = elim (Bool-cases (kv.key == key)) [
  | inl e ↦ rw (e, span) (IsSorted-span key kvs s.1)
  | inr e ↦ rw (e, span) s
]

-- A pair that is past `key` in a sorted list has no pair under `key` behind it.
values_of_past :
    (key : Bytes) (kv : KeyValue) (kvs : List KeyValue)
    → bytes_beq kv.key key ≡ false
    → bytes_ltb kv.key key ≡ false
    → All (λ later. less later kv ≡ false) kvs
    → values_of key kvs ≡ []
values_of_past key kv [] ne ge s = refl
values_of_past key kv (x ∷ kvs) ne ge s = ground (
  arith,
  s.0,
  values_of_past key kv kvs ne ge s.1,
  bytes_beq_iff x.key key,
  bytes_beq_iff kv.key key,
  bytes_total kv.key key,
)

values_of-span :
    (key : Bytes) (kvs : List KeyValue)
    → All (λ later. bytes_ltb later.key key ≡ false) kvs
    → IsSorted kvs
    → (values_of key kvs ≡ (span key kvs).0) × (values_of key (span key kvs).1 ≡ [])
unfolding span
values_of-span key [] ge s = (refl, refl)
values_of-span key (kv ∷ kvs) ge s = elim (Bool-cases (kv.key == key)) [
  | inl e ↦ let (p, q) = values_of-span key kvs ge.1 s.1 in (ground arith, ground arith)
  | inr e ↦ let none_left = values_of_past key kv kvs e ge.0 s.0 in (ground arith, ground arith)
]

ungroup-groups_loop :
    (fuel : ℕ) (kvs : List KeyValue) → length kvs ≤ fuel → ungroup (groups_loop fuel kvs) ≡ kvs
unfolding groups_loop
ungroup-groups_loop zero [] h = refl
ungroup-groups_loop zero (kv ∷ kvs) h = absurd (omega arith)
ungroup-groups_loop (suc fuel) [] h = refl
ungroup-groups_loop (suc fuel) (kv ∷ kvs) h =
    rw (ungroup-groups_loop fuel (span kv.key kvs).1 (omega (arith, length-span kv.key kvs)))
      (ap (◌∷◌ kv) (pairs-span kv.key kvs))

lookup-groups_loop :
    (fuel : ℕ) (kvs : List KeyValue) (key : Bytes)
    → length kvs ≤ fuel
    → IsSorted kvs
    → lookup key (groups_loop fuel kvs) ≡ group_of (values_of key kvs)
unfolding groups_loop lookup
lookup-groups_loop zero [] key h s = refl
lookup-groups_loop zero (kv ∷ kvs) key h s = absurd (omega arith)
lookup-groups_loop (suc fuel) [] key h s = refl
lookup-groups_loop (suc fuel) (kv ∷ kvs) key h s =
    let rest = (span kv.key kvs).1 in
    let ih =
      lookup-groups_loop fuel rest key (omega (arith, length-span kv.key kvs))
        (IsSorted-span kv.key kvs s.1) in
    elim (Bool-cases (kv.key == key)) [
      | inl e ↦
          let all = (values_of-span kv.key kvs s.0 s.1).0 in
          rw e (
            ap {B = Option (List Bytes)} (λ vs. some (kv.value ∷ vs))
              (sym all ∙ ap (λ k. values_of k kvs) ((bytes_beq_iff kv.key key).0 e)))
      | inr e ↦ rw e (ih ∙ ap group_of (values_of-span_ne kv.key key kvs e))
    ]

HasOnce-groups_loop :
    (fuel : ℕ) (kvs : List KeyValue)
    → length kvs ≤ fuel
    → IsSorted kvs
    → HasOnce (groups_loop fuel kvs)
unfolding groups_loop
HasOnce-groups_loop zero kvs h s = tt
HasOnce-groups_loop (suc fuel) [] h s = tt
HasOnce-groups_loop (suc fuel) (kv ∷ kvs) h s =
    let rest = (span kv.key kvs).1 in
    let fits : length rest ≤ fuel = omega (arith, length-span kv.key kvs) in
    let sorted = IsSorted-span kv.key kvs s.1 in
    (
      lookup-groups_loop fuel rest kv.key fits sorted
          ∙ ap group_of (values_of-span kv.key kvs s.0 s.1).1,
      HasOnce-groups_loop fuel rest fits sorted,
    )

-- The grouping loop loses no pair, makes none up and keeps their order, sorted or not: the groups
-- written out again are its input.
pub ungroup-groups : (kvs : List KeyValue) → ungroup (groups kvs) ≡ kvs
unfolding groups
ungroup-groups kvs = ungroup-groups_loop (length kvs) kvs (omega arith)

-- On pairs in the order that `sort.Sort(ByKey(...))` leaves, `reducef` is called exactly once for
-- every key that occurs, with all of the key's values in their order, and for no other key.
pub groups_complete :
    (kvs : List KeyValue)
    → IsSorted kvs
    → HasOnce (groups kvs)
      × ((key : Bytes) → lookup key (groups kvs) ≡ group_of (values_of key kvs))
unfolding groups
groups_complete kvs s = (
  HasOnce-groups_loop (length kvs) kvs (omega arith) s,
  λ key. lookup-groups_loop (length kvs) kvs key (omega arith) s,
)
