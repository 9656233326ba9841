-- ===== src/Raft/Restart/Examples.antt =====
-- A peer that was replaced goes on saving.
use dist_kv_raft.Common.{some, List, [], ◌∷◌, ◌≡◌, refl}
use dist_kv_raft.Raft.Storage.{Persister}
use dist_kv_raft.Raft.Restart.{DiskEvent, saves, crashes, starts, run_disks, no_disks}
use dist_kv_raft.Raft.Restart.Stable.{no_stable, run_stable, disk_of}
use dist_kv_raft.Raft.Restart.Refined.{disks_refine}

-- Peer 0 saves after it was killed, and after peer 1 has been started in its place.
abbrev events : List DiskEvent
events =
    starts 0
    ∷ saves 0 (5 ∷ []) []
    ∷ crashes 0
    ∷ saves 0 (6 ∷ []) []
    ∷ starts 0
    ∷ saves 0 (7 ∷ []) []
    ∷ saves 1 (8 ∷ []) (9 ∷ [])
    ∷ []

abbrev kept : Persister
kept = record { raftstate = 8 ∷ []; snapshot = 9 ∷ [] }

spec_of_events : (run_stable events no_stable).state 0 ≡ some kept
spec_of_events = refl

disks_refine_example :
    (disk_of 0 (run_disks events no_disks) ≡ (run_stable events no_stable).state 0)
    × ((run_disks events no_disks).rafts 0 ≡ (run_stable events no_stable).current 0)
disks_refine_example = disks_refine events 0
