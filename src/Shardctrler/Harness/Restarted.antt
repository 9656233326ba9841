-- ===== src/Shardctrler/Harness/Restarted.antt =====
-- shardctrler/config.go: what a server is started with after ShutdownServer.
use dist_kv_raft.Common.{
  ℕ, nat_eq, beq_refl, if◌then◌else◌, none, List, [], ◌∷◌, Bytes, ◌≡◌, refl, ap, ◌∙◌, arith,
}
use dist_kv_raft.Raft.Restart.{Disks, copy_saved, kill_raft, make_raft, instance_save}
use dist_kv_raft.Raft.Restart.Apart.{IsApart, kill_raft-IsApart, killed_idle}
use dist_kv_raft.Raft.Restart.Crash.{copied, instance_save-IsApart}
use dist_kv_raft.Raft.Restart.Stable.{
  disk_of, started_state, is_peer, saved_state, disk_of-copy, disk_of-kill, disk_of-make,
  disk_of-save, raft_of-save,
}
use dist_kv_raft.Shardctrler.Harness.{shutdown_disks, start_server_disks}

-- A peer of any age saves.
pub record Save : Type 0 where
  pub peer : ℕ
  pub raftstate : Bytes
  pub snapshot : Bytes

abbrev pub run_saves : List Save → Disks → Disks
run_saves [] d = d
run_saves (s ∷ ss) d = run_saves ss (instance_save s.peer s.raftstate s.snapshot d)

-- While a server has no peer, no save reaches its persister.
saves_pass :
    (i : ℕ) (ss : List Save) (d : Disks)
    → IsApart none d
    → d.rafts i ≡ none
    → IsApart none (run_saves ss d) × (disk_of i (run_saves ss d) ≡ disk_of i d)
saves_pass i [] d a idle = (a, refl)
saves_pass i (s ∷ ss) d a idle =
    let next = instance_save s.peer s.raftstate s.snapshot d in
    let kept = raft_of-save i s.peer s.raftstate s.snapshot d in
    let (apart, same) =
      saves_pass i ss next (instance_save-IsApart s.peer s.raftstate s.snapshot d a)
        (kept.0 ∙ idle) in
    (
      apart,
      same
          ∙ disk_of-save i s.peer s.raftstate s.snapshot d a
          ∙ ap
              (λ o.
                if is_peer o s.peer
                then saved_state s.raftstate s.snapshot (disk_of i d)
                else disk_of i d)
              idle,
    )

-- While no server shares a persister with another peer, a server that is shut down and started
-- later gets the state and the snapshot it was shut down with, or empty ones if it had none,
-- whatever peers of any age save in between.
pub restart_keeps_state :
    (i : ℕ) (ss : List Save) (d : Disks)
    → IsApart none d
    → disk_of i (start_server_disks i (run_saves ss (shutdown_disks i d)))
      ≡ started_state (disk_of i d)
unfolding start_server_disks shutdown_disks make_raft
restart_keeps_state i ss d a =
    let (but, free) = copied i d a in
    let down = kill_raft i (copy_saved i d) in
    let apart = kill_raft-IsApart i (copy_saved i d) free but in
    let (still, same) = saves_pass i ss down apart (killed_idle i (copy_saved i d)) in
    disk_of-make none i (run_saves ss down) still i
    ∙ ground (arith, beq_refl i)
    ∙ ap started_state (same ∙ disk_of-kill i i (copy_saved i d) ∙ disk_of-copy none i d a i)
