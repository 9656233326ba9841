-- ===== src/Raft/Storage.antt =====
-- raft/persister.go: the stable storage of a peer. `clone` keeps the bytes, so it is not written.
use dist_kv_raft.Common.{ℕ, [], Bytes, length}

pub record Persister : Type 0 where
  pub raftstate : Bytes
  pub snapshot : Bytes

unfoldable pub make_persister : Persister
make_persister = record { raftstate = []; snapshot = [] }

unfoldable pub copy : Persister → Persister
unfolding make_persister
copy ps = record make_persister { raftstate = ps.raftstate; snapshot = ps.snapshot }

unfoldable pub read_raft_state : Persister → Bytes
read_raft_state ps = ps.raftstate

unfoldable pub raft_state_size : Persister → ℕ
raft_state_size ps = length ps.raftstate

unfoldable pub save : Bytes → Bytes → Persister → Persister
save raftstate snapshot ps = record ps { raftstate = raftstate; snapshot = snapshot }

unfoldable pub read_snapshot : Persister → Bytes
read_snapshot ps = ps.snapshot

unfoldable pub snapshot_size : Persister → ℕ
snapshot_size ps = length ps.snapshot
