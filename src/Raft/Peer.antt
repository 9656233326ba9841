-- ===== src/Raft/Peer.antt =====
-- raft/raft.go: the state of a peer and the methods on it whose bodies are given.
use dist_kv_raft.Common.{
  ℕ, zero, suc, ◌+◌, ℤ, pos, negsuc, ◌==◌, nat_eq, Bool, Option, none, some, List, Bytes, length,
  get_elem?,
}
use dist_kv_raft.Raft.Types.{LogEntry, State}
use dist_kv_raft.Raft.Storage.{Persister, raft_state_size, read_snapshot}

-- `voted_for` is `none` for the negative numbers. The channels and the peers are left out.
pub record Raft (C : Type 0) : Type 0 where
  pub persister : Persister
  pub me : ℕ
  pub dead : ℕ
  pub current_term : ℕ
  pub voted_for : Option ℕ
  pub logs : List (LogEntry C)
  pub commit_index : ℕ
  pub last_applied : ℕ
  pub next_index : List ℕ
  pub match_index : List ℕ
  pub state : State
  pub vote_count : ℕ
  pub snap_last_index : ℕ
  pub snap_last_term : ℕ

abbrev pub minus_one : ℕ → ℤ
minus_one zero = negsuc 0
minus_one (suc n) = pos n

unfoldable pub get_last_index : {C : Type 0} → Raft C → ℤ
get_last_index rf = minus_one (length rf.logs + rf.snap_last_index)

abbrev pub term_of : {C : Type 0} → Option (LogEntry C) → Option ℕ
term_of none = none
term_of (some e) = some e.term

abbrev pub last_term : {C : Type 0} → ℕ → List (LogEntry C) → Option ℕ
last_term zero logs = none
last_term (suc n) logs = term_of (get_elem? logs n)

-- The index `getLastIndex() - snapLastIndex` is that of the last entry; `none` where it panics.
unfoldable pub get_last_term : {C : Type 0} → Raft C → Option ℕ
get_last_term rf = last_term (length rf.logs) rf.logs

unfoldable pub get_raft_state_size : {C : Type 0} → Raft C → ℕ
unfolding raft_state_size
get_raft_state_size rf = raft_state_size rf.persister

unfoldable pub snapshot_of : {C : Type 0} → Raft C → Bytes
unfolding read_snapshot
snapshot_of rf = read_snapshot rf.persister

unfoldable pub kill : {C : Type 0} → Raft C → Raft C
kill rf = record rf { dead = 1 }

unfoldable pub killed : {C : Type 0} → Raft C → Bool
killed rf = rf.dead == 1
