-- ===== src/Raft/Wiring.antt =====
-- raft/config.go: `connect` and `disconnect`, which the tests make partitions with. `name i j` is
-- `cfg.endnames[i][j]`, the end by which server i calls server j. The tests for nil names are
-- those of Raft/Cluster, since they matter only before the servers have started.
pub mod Loops
pub mod Partition
pub mod Names
mod Examples
use dist_kv_raft.Common.{
  ℕ, zero, suc, if◌then◌else◌, Bool, true, false, List, [], ◌∷◌, String, set, replicate,
}
use dist_kv_raft.Labrpc.Network.{Network, enable}

pub record Wiring : Type 0 where
  pub connected : List Bool
  pub net : Network

-- One loop of `connect`, from `j` on; the list is `cfg.connected[j:]`.
unfoldable pub enable_connected : (ℕ → String) → ℕ → List Bool → Network → Network
enable_connected name j [] rn = rn
enable_connected name j (c ∷ cs) rn =
    enable_connected name (suc j) cs (if c then enable (name j) true rn else rn)

-- One loop of `disconnect`.
unfoldable pub disable_all : (ℕ → String) → ℕ → List Bool → Network → Network
disable_all name j [] rn = rn
disable_all name j (c ∷ cs) rn = disable_all name (suc j) cs (enable (name j) false rn)

unfoldable pub connect_server : (ℕ → ℕ → String) → ℕ → Wiring → Wiring
unfolding enable_connected
connect_server name i w =
    let connected = set w.connected i true in
    record {
      connected = connected;
      net =
          enable_connected (λ j. name j i) 0 connected
            (enable_connected (name i) 0 connected w.net);
    }

unfoldable pub disconnect_server : (ℕ → ℕ → String) → ℕ → Wiring → Wiring
unfolding disable_all
disconnect_server name i w =
    let connected = set w.connected i false in
    record {
      connected = connected;
      net = disable_all (λ j. name j i) 0 connected (disable_all (name i) 0 connected w.net);
    }

pub data Change : Type 0 where
  connects : ℕ → Change
  disconnects : ℕ → Change

unfoldable pub rewire : (ℕ → ℕ → String) → List Change → Wiring → Wiring
unfolding connect_server disconnect_server
rewire name [] w = w
rewire name (connects i ∷ cs) w = rewire name cs (connect_server name i w)
rewire name (disconnects i ∷ cs) w = rewire name cs (disconnect_server name i w)
