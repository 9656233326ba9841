-- ===== src/Raft/Snapping/Restored.antt =====
-- raft/config.go: a server that is given the snapshot of another has its log.
use dist_kv_raft.Common.{
  ℕ, zero, suc, ◌+◌, ◌%◌, ◌≤◌, ◌<◌, pos, negsuc, ltb, ltb→lt, ◌==◌, Eq, nat_eq, beq_refl,
  if◌then◌else◌, Bool, true, false, not, ◌&&◌, ◌||◌, Option, none, some, List, [], ◌∷◌, ◌++◌, Dict,
  lookup, insert, lookup-insert, Bytes, get_elem?, get_elem?-set_self, set, length, ◌≡◌, refl, sym,
  ap, ◌∙◌, arith, inl, inr, Bool-cases, none≢some, some_inj,
}
use dist_kv_raft.Raft.Harness.{Message, log_of, check_logs}
use dist_kv_raft.Raft.Snapping.{
  Snapping, ingested, snap_shot_interval, last_of, fill_log, command_at, commands_from, ingest_snap,
  snap_if_due, apply_command,
}

module _ {V : Type 0} where
  pub lookup_fill_before :
      (k j : ℕ) (xlog : List V) (log : Dict ℕ V)
      → k < j
      → lookup k (fill_log j xlog log) ≡ lookup k log
  unfolding fill_log
  lookup_fill_before k j [] log lt = refl
  lookup_fill_before k j (c ∷ cs) log lt =
      lookup_fill_before k (suc j) cs (insert j c log) (omega arith)
      ∙ ground (arith, lookup-insert j k c log)

  pub lookup_fill_at :
      (i j k : ℕ) (v : V) (xlog : List V) (log : Dict ℕ V)
      → j + i ≡ k
      → get_elem? xlog i ≡ some v
      → lookup k (fill_log j xlog log) ≡ some v
  unfolding fill_log
  lookup_fill_at i j k v [] log at e = absurd (none≢some e)
  lookup_fill_at zero j k v (c ∷ cs) log at e =
      lookup_fill_before k (suc j) cs (insert j c log) (omega arith)
      ∙ ground (arith, lookup-insert j k c log, at, e)
  lookup_fill_at (suc i) j k v (c ∷ cs) log at e =
      lookup_fill_at i (suc j) k v cs (insert j c log) (omega arith) e

  lookup_fill_past :
      (j k : ℕ) (xlog : List V) (log : Dict ℕ V)
      → j + length xlog ≤ k
      → lookup k (fill_log j xlog log) ≡ lookup k log
  unfolding fill_log
  lookup_fill_past j k [] log past = refl
  lookup_fill_past j k (c ∷ cs) log past =
      lookup_fill_past (suc j) k cs (insert j c log) (omega arith)
      ∙ ground (arith, lookup-insert j k c log, past)

  pub log_of-set :
      (i : ℕ) (logs : List (Dict ℕ V)) (log : Dict ℕ V)
      → i < length logs
      → log_of i (set logs i log) ≡ log
  log_of-set i logs log lt = ground (arith, get_elem?-set_self logs i log lt)

pub last_of-set :
    (i : ℕ) (last : List ℕ) (index : ℕ) → i < length last → last_of i (set last i index) ≡ index
last_of-set i last index lt = ground (arith, get_elem?-set_self last i index lt)

module _ {V : Type 0} (nil : V) where
  get_elem?-commands_from :
      (i j count : ℕ) (log : Dict ℕ V)
      → i < count
      → get_elem? (commands_from nil j count log) i ≡ some (command_at nil (j + i) log)
  unfolding commands_from
  get_elem?-commands_from i j zero log lt = absurd (omega arith)
  get_elem?-commands_from zero j (suc count) log lt =
      ap (λ k. some (command_at nil k log)) (omega arith)
  get_elem?-commands_from (suc i) j (suc count) log lt =
      get_elem?-commands_from i (suc j) count log (omega arith)
      ∙ ap (λ k. some (command_at nil k log)) (omega arith)

  length-commands_from :
      (j count : ℕ) (log : Dict ℕ V) → length (commands_from nil j count log) ≡ count
  unfolding commands_from
  length-commands_from j zero log = refl
  length-commands_from j (suc count) log = ap suc (length-commands_from (suc j) count log)

  -- The log that a snapshot of a log up to `index` is turned into.
  lookup-restored :
      (k index : ℕ) (log : Dict ℕ V)
      → lookup k (fill_log 0 (commands_from nil 0 (index + 1) log) [])
        ≡ (if ltb k (index + 1) then some (command_at nil k log) else none)
  unfolding lookup
  lookup-restored k index log = elim (Bool-cases (ltb k (index + 1))) [
    | inl below ↦
        lookup_fill_at k 0 k (command_at nil k log) (commands_from nil 0 (index + 1) log) []
          (omega arith)
          (get_elem?-commands_from k 0 (index + 1) log (ltb→lt k (index + 1) below)
            ∙ ap (λ n. some (command_at nil n log)) (omega arith))
        ∙ ap (λ b. if b then some (command_at nil k log) else none) (sym below)
    | inr past ↦
        lookup_fill_past 0 k (commands_from nil 0 (index + 1) log) []
          (ground (arith, past, length-commands_from 0 (index + 1) log))
        ∙ ap (λ b. if b then some (command_at nil k log) else none) (sym past)
  ]

pub if_none_inv :
    {A : Type 0} (b : Bool) (x y : A)
    → (if b then none else some x) ≡ some y
    → (b ≡ false) × (x ≡ y)
if_none_inv true x y e = absurd (none≢some e)
if_none_inv false x y e = (refl, some_inj e)

module _ {V : Type 0} ⦃go : Eq V⦄ (nil : V) (encode : ℕ → List V → Bytes)
    (decode : Bytes → Option (ℕ × List V)) where
  -- What a command leaves before a snapshot is considered.
  abbrev pub after_command : Message V → Snapping V → Snapping V
  after_command m s = record s {
    base = (check_logs m s.base).1;
    last_applied = set s.last_applied m.server m.command_index;
  }

  pub apply_command_inv :
      (m : Message V) (s s' : Snapping V)
      → apply_command nil encode decode m s ≡ some s'
      → (m.command_index ≡ last_of m.server s.last_applied + 1)
        × (snap_if_due nil encode decode m.server m.command_index (after_command m s) ≡ s')
  unfolding apply_command
  apply_command_inv m s s' e =
      let (guards, same) =
        if_none_inv
          (not (m.command_index == last_of m.server s.last_applied + 1)
            || ((check_logs m s.base).0.0
                || (ltb 1 m.command_index && not (check_logs m s.base).0.1)))
          (snap_if_due nil encode decode m.server m.command_index (after_command m s)) s' e in
      (ground (arith, guards), same)

  due_call :
      (i index : ℕ) (s : Snapping V)
      → (index + 1) % snap_shot_interval ≡ 0
      → snap_if_due nil encode decode i index s ≡ record s {
        calls =
            s.calls
            ++ record {
              caller = i;
              index = index;
              bytes = encode index (commands_from nil 0 (index + 1) (log_of i s.base.logs));
            }
              ∷ [];
      }
  unfolding snap_if_due
  due_call i index s due = ground (arith, due)

  ingest_own :
      (j index : ℕ) (xlog : List V) (bytes : Bytes) (other : Snapping V)
      → decode bytes ≡ some (index, xlog)
      → (ingest_snap nil encode decode j (some bytes) (pos index) other
          ≡ ingested (record other {
            base = record other.base { logs = set other.base.logs j (fill_log 0 xlog []) };
            last_applied = set other.last_applied j index;
          }))
        × (ingest_snap nil encode decode j (some bytes) (negsuc 0) other
            ≡ ingested (record other {
              base = record other.base { logs = set other.base.logs j (fill_log 0 xlog []) };
              last_applied = set other.last_applied j index;
            }))
  unfolding ingest_snap
  ingest_own j index xlog bytes other e = (rw (ingest_snap, e, beq_refl index), rw (ingest_snap, e))

  -- Let decoding give back what was encoded. When a command at an index that makes a snapshot due
  -- is applied without error, the peer is given one snapshot more, for this index. Any server that
  -- ingests it, delivered for this index or at a start, has afterwards applied up to this index, and
  -- its log has at each index up to it the command that the log of the first server has there (nil
  -- if it has none) and nothing above.
  pub snapshot_restores :
      (m : Message V) (s s' other : Snapping V) (j : ℕ)
      → ((index : ℕ) (xlog : List V) → decode (encode index xlog) ≡ some (index, xlog))
      → apply_command nil encode decode m s ≡ some s'
      → (m.command_index + 1) % snap_shot_interval ≡ 0
      → j < length other.base.logs
      → j < length other.last_applied
      → (bytes : Bytes) × (restored : Snapping V) × (s'.calls
          ≡ s.calls ++ record { caller = m.server; index = m.command_index; bytes = bytes } ∷ [])
        × (ingest_snap nil encode decode j (some bytes) (pos m.command_index) other
            ≡ ingested restored)
        × (ingest_snap nil encode decode j (some bytes) (negsuc 0) other ≡ ingested restored)
        × (last_of j restored.last_applied ≡ m.command_index)
        × ((k : ℕ)
            → lookup k (log_of j restored.base.logs) ≡ (
                if ltb k (m.command_index + 1)
                then some (command_at nil k (log_of m.server s'.base.logs))
                else none))
  snapshot_restores m s s' other j codes run due lj la =
      let index = m.command_index in
      let done = (apply_command_inv m s s' run).1 in
      let called = sym done ∙ due_call m.server index (after_command m s) due in
      let own = log_of m.server (after_command m s).base.logs in
      let xlog = commands_from nil 0 (index + 1) own in
      let given = ingest_own j index xlog (encode index xlog) other (codes index xlog) in
      let same : log_of m.server s'.base.logs ≡ own =
        ap (λ (r : Snapping V). log_of m.server r.base.logs) called in
      (
        encode index xlog,
        record other {
          base = record other.base { logs = set other.base.logs j (fill_log 0 xlog []) };
          last_applied = set other.last_applied j index;
        },
        ap (λ (r : Snapping V). r.calls) called,
        given.0,
        given.1,
        last_of-set j other.last_applied index la,
        λ k.
            ap (lookup k) (log_of-set j other.base.logs (fill_log 0 xlog []) lj)
            ∙ lookup-restored nil k index own
            ∙ ap (λ log. if ltb k (index + 1) then some (command_at nil k log) else none)
                (sym same),
      )
