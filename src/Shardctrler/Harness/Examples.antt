-- ===== src/Shardctrler/Harness/Examples.antt =====
-- shardctrler/config.go: five servers.
use dist_kv_raft.Common.{
  ℕ, nat_eq, Bool, true, false, some, List, [], ◌∷◌, ◌++◌, string_eq, length, get_elem?, ◌≡◌, refl,
  arith,
}
use dist_kv_raft.Labrpc.Network.{make_network}
use dist_kv_raft.Raft.Restart.{start_disks, no_disks, instance_save}
use dist_kv_raft.Raft.Restart.Crash.{no_disks-IsApart, start_disks-IsApart, instance_save-IsApart}
use dist_kv_raft.Raft.Restart.Stable.{disk_of, started_state}
use dist_kv_raft.Raft.Wiring.Loops.{is_on}
use dist_kv_raft.Raft.Wiring.Names.{end_name, end_name-AreNames}
use dist_kv_raft.Shardctrler.Harness.{
  leader, partition, make_partition, start_server_disks, shutdown_disks,
}
use dist_kv_raft.Shardctrler.Harness.Parted.{mem, partition_parts}
use dist_kv_raft.Shardctrler.Harness.Halves.{others, make_partition_deals}
use dist_kv_raft.Shardctrler.Harness.Restarted.{run_saves, restart_keeps_state}

abbrev five : List Bool
five = false ∷ false ∷ true ∷ false ∷ false ∷ []

-- The leader, server 2, goes to the minority.
deals : make_partition 5 five ≡ some (0 ∷ 1 ∷ 3 ∷ [], 4 ∷ 2 ∷ [])
unfolding make_partition
deals = refl

-- With four servers, server 0 is listed twice.
deals_even :
    make_partition 4 (false ∷ true ∷ false ∷ false ∷ []) ≡ some (0 ∷ 2 ∷ 3 ∷ [], 0 ∷ 1 ∷ [])
unfolding make_partition
deals_even = refl

make_partition_deals_example :
    (p1 p2 : List ℕ) × (make_partition 5 five ≡ some (p1, p2))
    × (p1 ++ p2 ≡ others 5 0 2 ++ 2 ∷ [])
    × (length p1 ≡ 3)
    × (length p2 ≡ 2)
    × (get_elem? p2 1 ≡ some 2)
unfolding leader
make_partition_deals_example = make_partition_deals 2 five (omega arith) refl

apart : (x : ℕ) → mem x (0 ∷ 1 ∷ 3 ∷ []) ≡ true → mem x (4 ∷ 2 ∷ []) ≡ false
apart x e = ground arith

partition_parts_example :
    is_on (end_name 1 3) (partition end_name (λ j. true) (0 ∷ 1 ∷ 3 ∷ []) (4 ∷ 2 ∷ []) make_network)
    ≡ true
partition_parts_example =
    partition_parts end_name end_name-AreNames (λ j. true) (λ j. refl) (0 ∷ 1 ∷ 3 ∷ []) (4 ∷ 2 ∷ [])
      make_network 1 3 apart

-- Peer 0 of server 1 has saved, and saves again after it was shut down.
restart_keeps_state_example :
    disk_of 1 (
      start_server_disks 1 (
        run_saves
          (record { peer = 0; raftstate = 8 ∷ []; snapshot = [] } ∷ [])
          (shutdown_disks 1 (instance_save 0 (7 ∷ []) (5 ∷ []) (start_disks 1 no_disks)))))
    ≡ started_state (disk_of 1 (instance_save 0 (7 ∷ []) (5 ∷ []) (start_disks 1 no_disks)))
restart_keeps_state_example =
    restart_keeps_state 1 (record { peer = 0; raftstate = 8 ∷ []; snapshot = [] } ∷ [])
      (instance_save 0 (7 ∷ []) (5 ∷ []) (start_disks 1 no_disks))
      (instance_save-IsApart 0 (7 ∷ []) (5 ∷ []) (start_disks 1 no_disks)
        (start_disks-IsApart 1 no_disks no_disks-IsApart))
