-- ===== src/Mr/Worker/Split.antt =====
-- bucket_by_intermediate_key of mr/worker.go: what the intermediate files hold afterwards.
use dist_kv_raft.Common.{
  ℕ, ◌<◌, ◌%◌, ◌==◌, nat_beq, nat_beq_iff, nat_eq, bytes_beq, bytes_beq_iff, bytes_eq, beq_refl,
  if◌then◌else◌, ◌≡◌, ◌≢◌, refl, ap, subst, sym, ◌∙◌, Bool, true, false, Option, none, some, List,
  [], ◌∷◌, ◌++◌, Bytes, lookup, insert, lookup-insert, arith, Bool-cases, inl, inr, Option-cases,
  some_inj,
}
use mathlib.Core.List.{append_assoc, append-nil}
use dist_kv_raft.Mr.Types.{KeyValue}
use dist_kv_raft.Mr.Names.{intermediate_name, intermediate_name-injective}
use dist_kv_raft.Mr.Worker.{
  ihash, Intermediates, Buckets, contents, bucket_round, bucket_rounds, bucket_by_intermediate_key,
}

-- The pairs whose key belongs to reduce task `b` of `n`, in order.
abbrev pub in_bucket : ℕ → ℕ → List KeyValue → List KeyValue
in_bucket n b [] = []
in_bucket n b (kv ∷ kvs) =
    let rest = in_bucket n b kvs in if ihash kv.key % n == b then kv ∷ rest else rest

abbrev pub everything : Bytes → Bool
everything name = true

-- After a call in which no file failed to open, a bucket that gets a pair is a fresh file, and
-- another bucket is what it was before.
abbrev pub written : List KeyValue → Option (List KeyValue) → Option (List KeyValue)
written [] before = before
written (kv ∷ kvs) before = some (kv ∷ kvs)

abbrev outcome : Option Bytes → Option (List KeyValue) → List KeyValue → Option (List KeyValue)
outcome none before kvs = written kvs before
outcome (some _) none kvs = written kvs none
outcome (some _) (some old) kvs = some (old ++ kvs)

-- Names tell buckets apart as well as their numbers do.
name_beq : (t b c : ℕ) → bytes_beq (intermediate_name t b) (intermediate_name t c) ≡ nat_beq b c
name_beq t b c = elim (Bool-cases (nat_beq b c)) [
  | inl e ↦ rw (e, (nat_beq_iff b c).0 e) (beq_refl (intermediate_name t c))
  | inr e ↦ elim (Bool-cases (bytes_beq (intermediate_name t b) (intermediate_name t c))) [
    | inl f ↦
        let same = (intermediate_name-injective t b t c ((bytes_beq_iff _ _).0 f)).1 in
        ground (arith, same)
    | inr f ↦ f ∙ sym e
  ]
]

module _ (can_open : Bytes → Bool) (all_open : (name : Bytes) → can_open name ≡ true)
    (t n : ℕ) where
  -- The buckets in `opened` are open under their own names.
  abbrev IsNamed : Buckets → Type 0
  IsNamed s = (b : ℕ) (name : Bytes) → lookup b s.opened ≡ some name → name ≡ intermediate_name t b

  -- What a bucket holds when a pair comes: nothing if its file has yet to be opened.
  abbrev held : Buckets → ℕ → List KeyValue
  held s b = elim (lookup b s.opened) [
    | none ↦ []
    | some _ ↦ contents (intermediate_name t b) s.files
  ]

  abbrev after : KeyValue → Buckets → Buckets
  after kv s =
      let b = ihash kv.key % n in
      let name = intermediate_name t b in
      record {
        opened = elim (lookup b s.opened) [ none ↦ insert b name s.opened | some _ ↦ s.opened ];
        files =
            insert name (held s b ++ kv ∷ [])
              (elim (lookup b s.opened) [ none ↦ insert name [] s.files | some _ ↦ s.files ]);
      }

  bucket_round-after :
      (kv : KeyValue) (s : Buckets) → IsNamed s → bucket_round can_open t n kv s ≡ after kv s
  unfolding bucket_round
  bucket_round-after kv s named =
      let b = ihash kv.key % n in
      let name = intermediate_name t b in
      elim (Option-cases (lookup b s.opened)) [
        | inl e ↦ ground (
          arith,
          all_open name,
          lookup-insert b b name s.opened,
          lookup-insert name name [] s.files,
          beq_refl name,
        )
        | inr (old, e) ↦ ground (arith, named b old e)
      ]

  files-after :
      (kv : KeyValue) (s : Buckets) (b : ℕ)
      → lookup (intermediate_name t b) (after kv s).files ≡ (
          if nat_beq (ihash kv.key % n) b
          then some (held s b ++ kv ∷ [])
          else lookup (intermediate_name t b) s.files)
  files-after kv s b =
      let c = ihash kv.key % n in
      let name = intermediate_name t c in
      ground (
        arith,
        name_beq t c b,
        nat_beq_iff c b,
        lookup-insert name (intermediate_name t b) (held s c ++ kv ∷ []) s.files,
        lookup-insert name (intermediate_name t b) (held s c ++ kv ∷ []) (insert name [] s.files),
        lookup-insert name (intermediate_name t b) [] s.files,
      )

  opened-after :
      (kv : KeyValue) (s : Buckets) (b : ℕ)
      → nat_beq (ihash kv.key % n) b ≡ false
      → lookup b (after kv s).opened ≡ lookup b s.opened
  opened-after kv s b e =
      ground (
        arith,
        lookup-insert (ihash kv.key % n) b (intermediate_name t (ihash kv.key % n)) s.opened,
      )

  opened-after_self :
      (kv : KeyValue) (s : Buckets) (b : ℕ)
      → nat_beq (ihash kv.key % n) b ≡ true
      → (name : Bytes) × (lookup b (after kv s).opened ≡ some name)
  opened-after_self kv s b e =
      let c = ihash kv.key % n in
      let name = intermediate_name t c in
      elim (Option-cases (lookup c s.opened)) [
        | inl f ↦ (name, ground (arith, lookup-insert c b name s.opened))
        | inr (old, f) ↦ (old, ground arith)
      ]

  IsNamed-after : (kv : KeyValue) (s : Buckets) → IsNamed s → IsNamed (after kv s)
  IsNamed-after kv s named b name e = ground (
    arith,
    named b name,
    lookup-insert (ihash kv.key % n) b (intermediate_name t (ihash kv.key % n)) s.opened,
  )

  outcome-after :
      (kv : KeyValue) (s : Buckets) (b : ℕ) (kvs : List KeyValue)
      → outcome
          (lookup b (after kv s).opened)
          (lookup (intermediate_name t b) (after kv s).files)
          kvs
        ≡ outcome
            (lookup b s.opened)
            (lookup (intermediate_name t b) s.files)
            (if nat_beq (ihash kv.key % n) b then kv ∷ kvs else kvs)
  outcome-after kv s b kvs = elim (Bool-cases (nat_beq (ihash kv.key % n) b)) [
    | inl e ↦
        let (name, opened) = opened-after_self kv s b e in
        ground (
          arith,
          files-after kv s b,
          append_assoc (contents (intermediate_name t b) s.files) (kv ∷ []) kvs,
        )
    | inr e ↦ ground (arith, files-after kv s b, opened-after kv s b e)
  ]

  files-bucket_rounds :
      (kva : List KeyValue) (s : Buckets) (b : ℕ)
      → IsNamed s
      → lookup (intermediate_name t b) (bucket_rounds can_open t n kva s).files
        ≡ outcome (lookup b s.opened) (lookup (intermediate_name t b) s.files) (in_bucket n b kva)
  unfolding bucket_rounds
  files-bucket_rounds [] s b named =
      ground (arith, append-nil (contents (intermediate_name t b) s.files))
  files-bucket_rounds (kv ∷ kva) s b named =
      ap (λ u. lookup (intermediate_name t b) (bucket_rounds can_open t n kva u).files)
        (bucket_round-after kv s named)
      ∙ files-bucket_rounds kva (after kv s) b (IsNamed-after kv s named)
      ∙ outcome-after kv s b (in_bucket n b kva)

  other-bucket_rounds :
      (kva : List KeyValue) (s : Buckets) (name : Bytes)
      → IsNamed s
      → ((b : ℕ) → intermediate_name t b ≢ name)
      → lookup name (bucket_rounds can_open t n kva s).files ≡ lookup name s.files
  unfolding bucket_rounds
  other-bucket_rounds [] s name named ne = refl
  other-bucket_rounds (kv ∷ kva) s name named ne =
      let c = ihash kv.key % n in
      let own = intermediate_name t c in
      ap (λ u. lookup name (bucket_rounds can_open t n kva u).files) (bucket_round-after kv s named)
      ∙ other-bucket_rounds kva (after kv s) name (IsNamed-after kv s named) ne
      ∙ ground (
        arith,
        ne c,
        bytes_beq_iff own name,
        lookup-insert own name (held s c ++ kv ∷ []) s.files,
        lookup-insert own name (held s c ++ kv ∷ []) (insert own [] s.files),
        lookup-insert own name [] s.files,
      )

  IsNamed-start : (files : Intermediates) → IsNamed (record { opened = []; files = files })
  unfolding lookup
  IsNamed-start files b name e = ground arith

  -- With at least one reduce task and every file open to the worker, the call does not panic. The
  -- file of a reduce task then holds exactly the pairs of that task, in the order in which `mapf`
  -- emitted them, or is as it was if there are none; and no file of another map task, nor any
  -- other, has changed.
  pub bucket_files :
      (kva : List KeyValue) (files : Intermediates)
      → 0 < n
      → (files' : Intermediates) × (bucket_by_intermediate_key can_open t n kva files ≡ some files')
        × ((b : ℕ)
            → lookup (intermediate_name t b) files'
              ≡ written (in_bucket n b kva) (lookup (intermediate_name t b) files))
        × ((name : Bytes)
            → ((b : ℕ) → intermediate_name t b ≢ name)
            → lookup name files' ≡ lookup name files)
  unfolding bucket_by_intermediate_key lookup
  bucket_files [] files pos = (files, refl, (λ b. refl), (λ name ne. refl))
  bucket_files (kv ∷ kva) files pos =
      let s : Buckets = record { opened = []; files = files } in
      (
        (bucket_rounds can_open t n (kv ∷ kva) s).files,
        ground arith,
        (λ b. files-bucket_rounds (kv ∷ kva) s b (IsNamed-start files)),
        (λ name ne. other-bucket_rounds (kv ∷ kva) s name (IsNamed-start files) ne),
      )

  bucket_result :
      (kva : List KeyValue) (files out : Intermediates)
      → 0 < n
      → bucket_by_intermediate_key can_open t n kva files ≡ some out
      → (b : ℕ)
      → lookup (intermediate_name t b) out
        ≡ written (in_bucket n b kva) (lookup (intermediate_name t b) files)
  bucket_result kva files out pos e b =
      let (files', g, h, _) = bucket_files kva files pos in
      subst
        (λ f.
          lookup (intermediate_name t b) f
          ≡ written (in_bucket n b kva) (lookup (intermediate_name t b) files))
        (some_inj (sym g ∙ e)) (h b)

  written_again :
      (kvs : List KeyValue) (before : Option (List KeyValue))
      → written kvs (written kvs before) ≡ written kvs before
  written_again [] before = refl
  written_again (kv ∷ kvs) before = refl

  -- A map task that is done once more leaves every intermediate file of its own as the first run
  -- left it.
  pub bucket_again :
      (kva : List KeyValue) (files once twice : Intermediates)
      → 0 < n
      → bucket_by_intermediate_key can_open t n kva files ≡ some once
      → bucket_by_intermediate_key can_open t n kva once ≡ some twice
      → (b : ℕ) → lookup (intermediate_name t b) twice ≡ lookup (intermediate_name t b) once
  bucket_again kva files once twice pos e₁ e₂ b =
      bucket_result kva once twice pos e₂ b
      ∙ ap (written (in_bucket n b kva)) (bucket_result kva files once pos e₁ b)
      ∙ written_again (in_bucket n b kva) (lookup (intermediate_name t b) files)
      ∙ sym (bucket_result kva files once pos e₁ b)
