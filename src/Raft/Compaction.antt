-- ===== src/Raft/Compaction.antt =====
-- README.md, "Snapshotting": the bodies of `Snapshot`, `InstallSnapshot` and `persist` of
-- raft/raft.go as it lists them. `encode` stands for the labgob encoding of the term, the vote and
-- the log.
pub mod Laws
use dist_kv_raft.Common.{
  ℕ, zero, suc, ◌+◌, ◌-◌, leb, ltb, if◌then◌else◌, Option, none, some, List, [], ◌∷◌, Bytes, length,
  get_elem?, drop,
}
use dist_kv_raft.Raft.Types.{LogEntry, InstallSnapshotArgs}
use dist_kv_raft.Raft.Storage.{Persister, save, read_raft_state}
use dist_kv_raft.Raft.Peer.{Raft}

module _ {C : Type 0} (encode : ℕ → Option ℕ → List (LogEntry C) → Bytes) where
  unfoldable pub persist : Raft C → Raft C
  unfolding save
  persist rf = record rf {
    persister =
        save (encode rf.current_term rf.voted_for rf.logs) rf.persister.snapshot rf.persister;
  }

  -- The entry that stands for the snapshot.
  abbrev pub mark : ℕ → LogEntry C
  mark term = record { term = term; command = none }

  unfoldable pub compact : ℕ → Bytes → ℕ → Raft C → Raft C
  unfolding persist save read_raft_state
  compact index snapshot term rf = persist (record rf {
    snap_last_term = term;
    logs = mark term ∷ drop (index - rf.snap_last_index + 1) rf.logs;
    snap_last_index = index;
    persister = save (read_raft_state rf.persister) snapshot rf.persister;
  })

  -- `none` where the index is past the end of the log, which panics.
  unfoldable pub snapshot : ℕ → Bytes → Raft C → Option (Raft C)
  unfolding compact
  snapshot index data_bytes rf =
      if leb index rf.snap_last_index
      then some rf
      else elim (get_elem? rf.logs (index - rf.snap_last_index)) [
        | none ↦ none
        | some e ↦ some (compact index data_bytes e.term rf)
      ]

  -- The log that `InstallSnapshot` makes, for an index that is not below `snapLastIndex`.
  unfoldable pub install_snapshot_logs : InstallSnapshotArgs → Raft C → List (LogEntry C)
  install_snapshot_logs args rf =
      if ltb (rf.snap_last_index + length rf.logs) args.last_include_index
      then mark args.last_include_term ∷ []
      else mark args.last_include_term ∷ drop (args.last_include_index - rf.snap_last_index) rf.logs

  -- `InstallSnapshot` once the snapshot is valid; the listing does not show `update_metadata`.
  unfoldable pub install_snapshot :
      (InstallSnapshotArgs → Raft C → Raft C) → InstallSnapshotArgs → Raft C → Raft C
  unfolding install_snapshot_logs
  install_snapshot update_metadata args rf =
      update_metadata args (record rf { logs = install_snapshot_logs args rf })
