-- ===== src/Raft/Compaction/Laws.antt =====
-- README.md, "Snapshotting": what compaction keeps of the log.
use dist_kv_raft.Common.{
  ℕ, zero, suc, ◌+◌, ◌-◌, ◌<◌, ◌≤◌, leb, ltb, Option, some, List, ◌∷◌, Bytes, length, get_elem?,
  false, drop, get_elem?-drop, get_elem?-lt_length, get_elem?_below, length-drop, ◌≡◌, refl, sym,
  ap, ◌∙◌, arith,
}
use dist_kv_raft.Raft.Types.{LogEntry, InstallSnapshotArgs}
use dist_kv_raft.Raft.Storage.{save, read_raft_state}
use dist_kv_raft.Raft.Peer.{Raft, get_last_index, get_last_term, minus_one, last_term, term_of}
use dist_kv_raft.Raft.Compaction.{
  persist, compact, snapshot, mark, install_snapshot_logs, install_snapshot,
}

-- The entry at an index of the whole log, the snapshot included.
abbrev pub entry_at : {C : Type 0} → ℕ → Raft C → Option (LogEntry C)
entry_at i rf = get_elem? rf.logs (i - rf.snap_last_index)

later_entry :
    {C : Type 0} (m : LogEntry C) (logs : List (LogEntry C)) (d i : ℕ)
    → 1 ≤ i
    → get_elem? (m ∷ drop (d + 1) logs) i ≡ get_elem? logs (d + i)
later_entry m logs d zero le = absurd (omega arith)
later_entry m logs d (suc i) le = get_elem?-drop (d + 1) logs i ∙ ap (get_elem? logs) (omega arith)

same_term_at :
    {C : Type 0} (e m : LogEntry C) (logs : List (LogEntry C)) (d i : ℕ)
    → get_elem? logs d ≡ some e
    → m.term ≡ e.term
    → term_of (get_elem? (m ∷ drop (d + 1) logs) i) ≡ term_of (get_elem? logs (d + i))
same_term_at e m logs d zero at t =
    ap some t ∙ sym (ap term_of at) ∙ ap (λ j. term_of (get_elem? logs j)) (omega arith)
same_term_at e m logs d (suc i) at t = ap term_of (later_entry m logs d (suc i) (omega arith))

module _ {C : Type 0} (encode : ℕ → Option ℕ → List (LogEntry C) → Bytes) where
  -- What holds after a snapshot up to `index`.
  pub record IsCompacted (index : ℕ) (data_bytes : Bytes) (rf rf' : Raft C) : Type 0 where
    pub same_last_index : get_last_index rf' ≡ get_last_index rf
    pub same_last_term : get_last_term rf' ≡ get_last_term rf
    pub same_entries : (i : ℕ) → index < i → entry_at i rf' ≡ entry_at i rf
    pub same_term : term_of (entry_at index rf') ≡ term_of (entry_at index rf)
    pub is_shorter : length rf'.logs < length rf.logs
    pub is_saved : rf'.persister.snapshot ≡ data_bytes
    pub is_persisted : rf'.persister.raftstate ≡ encode rf'.current_term rf'.voted_for rf'.logs

  same_length :
      (index : ℕ) (rf : Raft C)
      → rf.snap_last_index < index
      → index - rf.snap_last_index < length rf.logs
      → suc (length (drop (index - rf.snap_last_index + 1) rf.logs)) + index
        ≡ length rf.logs + rf.snap_last_index
  same_length index rf lt below =
      omega (arith, length-drop (index - rf.snap_last_index + 1) rf.logs)

  compact-IsCompacted :
      (index : ℕ) (data_bytes : Bytes) (e : LogEntry C) (rf : Raft C)
      → rf.snap_last_index < index
      → get_elem? rf.logs (index - rf.snap_last_index) ≡ some e
      → IsCompacted index data_bytes rf (compact encode index data_bytes e.term rf)
  unfolding compact persist save read_raft_state get_last_index get_last_term
  compact-IsCompacted index data_bytes e rf lt at =
      let d = index - rf.snap_last_index in
      let rest = drop (d + 1) rf.logs in
      let whole : suc (d + length rest) ≡ length rf.logs =
        (let below = get_elem?-lt_length rf.logs d e at in
          omega (arith, length-drop (d + 1) rf.logs)) in
      let index_zero : index - index ≡ 0 = omega arith in
      let below = get_elem?-lt_length rf.logs (index - rf.snap_last_index) e at in
      record {
        same_last_index = ap minus_one (same_length index rf lt below);
        same_last_term =
            same_term_at e (mark encode e.term) rf.logs d (length rest) at refl
            ∙ ap (λ n. last_term n rf.logs) whole;
        same_entries = λ i above.
            later_entry (mark encode e.term) rf.logs d (i - index) (omega arith)
            ∙ ap (get_elem? rf.logs) (omega arith);
        same_term =
            ap (λ j. term_of (get_elem? (mark encode e.term ∷ rest) j)) index_zero
            ∙ sym (ap term_of at);
        is_shorter = omega (arith, length-drop (index - rf.snap_last_index + 1) rf.logs);
        is_saved = refl;
        is_persisted = refl;
      }

  not_leb : (a b : ℕ) → b < a → leb a b ≡ false
  not_leb a b lt = ground arith

  runs :
      (index : ℕ) (data_bytes : Bytes) (e : LogEntry C) (rf : Raft C)
      → rf.snap_last_index < index
      → get_elem? rf.logs (index - rf.snap_last_index) ≡ some e
      → snapshot encode index data_bytes rf ≡ some (compact encode index data_bytes e.term rf)
  unfolding snapshot
  runs index data_bytes e rf lt at = simp (snapshot, not_leb index rf.snap_last_index lt, at)

  -- A call of Snapshot with an index above that of the last snapshot and within the log does not
  -- panic. The peer's last index and last term stay the same, and so do the entries above the index
  -- and the term at it; the log is shorter, the snapshot is in stable storage, and with it the
  -- encoding of the new log.
  pub snapshot_compacts :
      (index : ℕ) (data_bytes : Bytes) (rf : Raft C)
      → rf.snap_last_index < index
      → index < rf.snap_last_index + length rf.logs
      → (rf' : Raft C) × (snapshot encode index data_bytes rf ≡ some rf')
        × IsCompacted index data_bytes rf rf'
  unfolding snapshot
  snapshot_compacts index data_bytes rf lt below =
      let (e, at) = get_elem?_below rf.logs (index - rf.snap_last_index) (omega arith) in
      (
        compact encode index data_bytes e.term rf,
        runs index data_bytes e rf lt at,
        compact-IsCompacted index data_bytes e rf lt at,
      )

  not_ltb : (a b : ℕ) → b ≤ a → ltb a b ≡ false
  not_ltb a b le = ground arith

  shifted :
      (m : LogEntry C) (logs : List (LogEntry C)) (d i j : ℕ)
      → (1 ≤ i) × (d + i ≡ suc j)
      → get_elem? (m ∷ drop d logs) i ≡ get_elem? logs j
  shifted m logs d zero j h = absurd (omega (arith, h.0))
  shifted m logs d (suc i) j h = get_elem?-drop d logs i ∙ ap (get_elem? logs) (omega (arith, h.1))

  -- If the metadata update that the listing of InstallSnapshot does not show sets `snapLastIndex`
  -- to the index of the snapshot and leaves the log alone, then InstallSnapshot moves what follows
  -- the snapshot up by one: when the log has an entry at that index, the entry at i is afterwards at
  -- i + 1 for every i from the index on, the entry at the index itself included, and the last index
  -- grows by one.
  pub install_snapshot_shifts :
      (update_metadata : InstallSnapshotArgs → Raft C → Raft C) (args : InstallSnapshotArgs)
      (rf : Raft C)
      → ((s : Raft C) → (update_metadata args s).snap_last_index ≡ args.last_include_index)
      → ((s : Raft C) → (update_metadata args s).logs ≡ s.logs)
      → rf.snap_last_index ≤ args.last_include_index
      → args.last_include_index < rf.snap_last_index + length rf.logs
      → ((i : ℕ)
          → args.last_include_index ≤ i
          → entry_at (suc i) (install_snapshot encode update_metadata args rf) ≡ entry_at i rf)
        × (get_last_index (install_snapshot encode update_metadata args rf)
            ≡ minus_one (suc (length rf.logs + rf.snap_last_index)))
  unfolding install_snapshot install_snapshot_logs get_last_index
  install_snapshot_shifts update_metadata args rf sets keeps le within =
      let index = args.last_include_index in
      let kept = mark encode args.last_include_term ∷ drop (index - rf.snap_last_index) rf.logs in
      let long = not_ltb (rf.snap_last_index + length rf.logs) index (omega arith) in
      let longer : length kept + index ≡ suc (length rf.logs + rf.snap_last_index) =
        omega (arith, length-drop (index - rf.snap_last_index) rf.logs) in
      let s = record rf { logs = install_snapshot_logs encode args rf } in
      let at = sets s in
      let logs' : (update_metadata args s).logs ≡ kept =
        keeps s ∙ rw (install_snapshot_logs, long) in
      (
        λ i above.
            ap (λ l. get_elem? l (suc i - (update_metadata args s).snap_last_index)) logs'
            ∙ ap (λ m. get_elem? kept (suc i - m)) at
            ∙ shifted (mark encode args.last_include_term) rf.logs (index - rf.snap_last_index)
                (suc i - index) (i - rf.snap_last_index) (omega arith, omega arith),
        ap (λ l. minus_one (length l + (update_metadata args s).snap_last_index)) logs'
            ∙ ap (λ m. minus_one (length kept + m)) at
            ∙ ap minus_one longer,
      )
