-- ===== src/Raft/Cluster.antt =====
-- raft/config.go: crash1, start1 and make_config as a whole. `server_name i` is the key of server
-- i in the network, `rows i` is `cfg.endnames[i]`, and the names that `randstring` draws are
-- arguments.
pub mod Started
mod Ready
mod Joined
pub mod Total
pub mod Reachable
mod Examples
use dist_kv_raft.Common.{
  ℕ, zero, suc, ◌+◌, negsuc, Eq, Bool, true, false, not, Option, none, some, List, [], ◌∷◌, String,
  Bytes, set, replicate, length,
}
use dist_kv_raft.Labrpc.Network.{
  Network, make_network, make_end, connect, add_server, delete_server, enable, set_reliable,
  set_long_delays,
}
use dist_kv_raft.Raft.Storage.{read_snapshot}
use dist_kv_raft.Raft.Wiring.{Wiring, disable_all, connect_server}
use dist_kv_raft.Raft.Snapping.{Snapping, make_snapping, Ingested, ingest_snap, or_fatal}
use dist_kv_raft.Raft.Restart.{Disks, update, no_disks, crash_disks, copy_or_make, make_raft}

abbrev pub Row : Type 0
Row = ℕ → String

pub record Cluster (V : Type 0) : Type 0 where
  pub disks : Disks
  pub rows : ℕ → Option Row
  pub wiring : Wiring
  pub snapping : Snapping V

-- The second loop of `disconnect`, with its test for nil, from `j` on.
unfoldable pub disable_incoming : (ℕ → Option Row) → ℕ → ℕ → List Bool → Network → Network
disable_incoming rows i j [] rn = rn
disable_incoming rows i j (c ∷ cs) rn =
    disable_incoming rows i (suc j) cs
      (elim (rows j) [ none ↦ rn | some row ↦ enable (row i) false rn ])

-- `disconnect` before all servers have been started.
unfoldable pub detach : (ℕ → Option Row) → ℕ → Wiring → Wiring
unfolding disable_all disable_incoming
detach rows i w =
    let connected = set w.connected i false in
    let out : Network = elim (rows i) [
      | none ↦ w.net
      | some row ↦ disable_all row 0 connected w.net
    ] in
    record { connected = connected; net = disable_incoming rows i 0 connected out }

abbrev pub on_net : (Network → Network) → Wiring → Wiring
on_net f w = record w { net = f w.net }

-- The loop that connects them.
unfoldable pub connect_all : ℕ → ℕ → (ℕ → Row) → Wiring → Wiring
unfolding connect_server
connect_all zero i drawn w = w
connect_all (suc left) i drawn w = connect_all left (suc i) drawn (connect_server drawn i w)

-- Before the servers are started.
unfoldable pub new_cluster : {V : Type 0} → ℕ → Bool → Cluster V
unfolding no_disks make_network set_reliable set_long_delays make_snapping
new_cluster n unreliable = record {
  disks = no_disks;
  rows = λ i. none;
  wiring = record {
    connected = replicate n false;
    net = set_long_delays true (set_reliable (not unreliable) make_network);
  };
  snapping = make_snapping n;
}

module _ (server_name : ℕ → String) where
  unfoldable pub crash1 : {V : Type 0} → ℕ → Cluster V → Cluster V
  unfolding detach crash_disks
  crash1 i c = record c {
    wiring = on_net (delete_server (server_name i)) (detach c.rows i c.wiring);
    disks = crash_disks i c.disks;
  }

  -- The loop that makes the ends, from `j` on; `none` where MakeEnd ends the process.
  unfoldable pub make_ends : ℕ → ℕ → Row → Network → Option Network
  make_ends zero j row rn = some rn
  make_ends (suc left) j row rn = elim (make_end (row j) rn) [
    | none ↦ none
    | some rn' ↦ make_ends left (suc j) row (connect (row j) (server_name j) rn')
  ]

  module _ {V : Type 0} ⦃go : Eq V⦄ (nil : V) (encode : ℕ → List V → Bytes)
      (decode : Bytes → Option (ℕ × List V)) where
    -- What `start1` does with a snapshot that is not empty; `none` where the test ends.
    unfoldable pub ingest_saved : ℕ → Disks → Snapping V → Option (Snapping V)
    unfolding ingest_snap read_snapshot
    ingest_saved i d s = elim (d.saved i) [
      | none ↦ some s
      | some p ↦ elim (read_snapshot (d.heap p)) [
        | [] ↦ some s
        | b ∷ bs ↦ or_fatal (ingest_snap nil encode decode i (some (b ∷ bs)) (negsuc 0) s)
      ]
    ]

    -- `srv` is known by the number of the new peer.
    unfoldable pub start1 : ℕ → Row → Cluster V → Option (Cluster V)
    unfolding crash1 make_ends copy_or_make ingest_saved make_raft
    start1 i row c =
        let crashed = crash1 i c in
        elim (make_ends (length crashed.wiring.connected) 0 row crashed.wiring.net) [
          | none ↦ none
          | some rn ↦
              let disks = copy_or_make i crashed.disks in
              let zeroed = record crashed.snapping {
                last_applied = set crashed.snapping.last_applied i 0;
              } in
              elim (ingest_saved i disks zeroed) [
                | none ↦ none
                | some snapping ↦ some (record {
                  disks = make_raft i disks;
                  rows = update crashed.rows i (some row);
                  wiring = record crashed.wiring {
                    net = add_server (server_name i) disks.count rn;
                  };
                  snapping = snapping;
                })
              ]
        ]

    -- The loop that starts the servers, from `i` on.
    unfoldable pub start_all : ℕ → ℕ → (ℕ → Row) → Cluster V → Option (Cluster V)
    unfolding start1
    start_all zero i drawn c = some c
    start_all (suc left) i drawn c = elim (start1 i (drawn i) c) [
      | none ↦ none
      | some c' ↦ start_all left (suc i) drawn c'
    ]

    unfoldable pub make_config : ℕ → Bool → (ℕ → Row) → Option (Cluster V)
    unfolding new_cluster start_all connect_all
    make_config n unreliable drawn = elim (start_all n 0 drawn (new_cluster n unreliable)) [
      | none ↦ none
      | some c ↦ some (record c { wiring = connect_all n 0 drawn c.wiring })
    ]
