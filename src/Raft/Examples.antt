-- ===== src/Raft/Examples.antt =====
-- Peers with short logs, and the theorems on them.
use dist_kv_raft.Common.{
  ℕ, suc, ◌≤◌, pos, ◌≡◌, refl, arith, All, true, Option, none, some, List, [], ◌∷◌, Bytes, length,
}
use dist_kv_raft.Raft.Types.{LogEntry, follower, InstallSnapshotArgs, RequestVoteArgs}
use dist_kv_raft.Raft.Storage.{make_persister}
use dist_kv_raft.Raft.Peer.{Raft, get_last_index}
use dist_kv_raft.Raft.Compaction.{snapshot, install_snapshot}
use dist_kv_raft.Raft.Compaction.Laws.{
  entry_at, IsCompacted, snapshot_compacts, install_snapshot_shifts,
}
use dist_kv_raft.Raft.Votes.{granted, request_vote, one_candidate_gets_votes}

abbrev entry : ℕ → LogEntry ℕ
entry n = record { term = n; command = some n }

-- The snapshot ends at 4; the log goes on to 7.
abbrev peer : Raft ℕ
peer = record {
  persister = make_persister;
  me = 0;
  dead = 0;
  current_term = 3;
  voted_for = none;
  logs = record { term = 1; command = none } ∷ entry 1 ∷ entry 2 ∷ entry 3 ∷ [];
  commit_index = 6;
  last_applied = 6;
  next_index = [];
  match_index = [];
  state = follower;
  vote_count = 0;
  snap_last_index = 4;
  snap_last_term = 1;
}

abbrev encode : ℕ → Option ℕ → List (LogEntry ℕ) → Bytes
encode term vote logs = term ∷ length logs ∷ []

last_is_seven : get_last_index peer ≡ pos 7
unfolding get_last_index
last_is_seven = refl

snapshot_compacts_example :
    (rf' : Raft ℕ) × (snapshot encode 6 (b'd' ∷ []) peer ≡ some rf')
    × IsCompacted encode 6 (b'd' ∷ []) peer rf'
snapshot_compacts_example = snapshot_compacts encode 6 (b'd' ∷ []) peer (omega arith) (omega arith)

abbrev install : InstallSnapshotArgs
install = record {
  term = 3;
  leader_id = 1;
  last_include_index = 6;
  last_include_term = 2;
  data_bytes = [];
}

abbrev update : InstallSnapshotArgs → Raft ℕ → Raft ℕ
update args rf = record rf { snap_last_index = args.last_include_index }

install_snapshot_shifts_example :
    ((i : ℕ)
      → 6 ≤ i
      → entry_at (suc i) (install_snapshot encode update install peer) ≡ entry_at i peer)
    × (get_last_index (install_snapshot encode update install peer) ≡ pos 8)
install_snapshot_shifts_example =
    install_snapshot_shifts encode update install peer (λ s. refl) (λ s. refl) (omega arith)
      (omega arith)

abbrev request : ℕ → ℕ → RequestVoteArgs
request term candidate = record {
  term = term;
  candidate_id = candidate;
  last_log_index = 7;
  last_log_term = 3;
}

abbrev requests : List RequestVoteArgs
requests = request 2 9 ∷ request 3 5 ∷ request 3 6 ∷ request 3 5 ∷ []

two_granted : granted (λ rf i t. true) requests peer ≡ 5 ∷ 5 ∷ []
unfolding granted request_vote
two_granted = refl

one_candidate_gets_votes_example :
    (c : ℕ) × All (λ g. g ≡ c) (granted (λ rf i t. true) requests peer)
    × ((v : ℕ) → none ≡ some v → c ≡ v)
one_candidate_gets_votes_example = one_candidate_gets_votes (λ rf i t. true) requests peer
