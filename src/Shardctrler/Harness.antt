-- ===== src/Shardctrler/Harness.antt =====
-- shardctrler/config.go: the harness of the controllers' tests. `name i j` is `cfg.endnames[i][j]`,
-- `has_row i` tells that `cfg.endnames[i]` is not nil, and the names that `randstring` draws are
-- arguments. A clerk is known by a number. The persisters are those of raft/config.go.
pub mod Parted
pub mod Halves
pub mod Clerks
pub mod Restarted
mod Examples
use dist_kv_raft.Common.{
  ℕ, zero, suc, ◌+◌, ◌-◌, ◌/◌, ltb, ◌==◌, nat_eq, if◌then◌else◌, Bool, true, false, Option, none,
  some, List, [], ◌∷◌, String, Dict, lookup, insert, remove, length, set, replicate,
}
use dist_kv_raft.Labrpc.Network.{
  Network, make_network, enable, add_server, delete_server, set_reliable,
}
use dist_kv_raft.Raft.Storage.{raft_state_size}
use dist_kv_raft.Raft.Restart.{
  Disks, update, no_disks, copy_saved, kill_raft, copy_or_make, make_raft,
}
use dist_kv_raft.Raft.Cluster.{Row, make_ends}

pub record Harness : Type 0 where
  pub net : Network
  pub disks : Disks
  pub rows : ℕ → Option Row
  pub clerks : Dict ℕ Row
  pub next_client_id : ℕ

-- The calls of Enable for the ends that a list of servers selects.
unfoldable pub set_ends : Bool → Row → List ℕ → Network → Network
set_ends on row [] rn = rn
set_ends on row (j ∷ js) rn = set_ends on row js (enable (row j) on rn)

-- The second loop of `disconnectUnlocked`, which tests for nil at its own counter `j`.
unfoldable pub drop_incoming : (ℕ → ℕ → String) → (ℕ → Bool) → ℕ → ℕ → List ℕ → Network → Network
drop_incoming name has_row i j [] rn = rn
drop_incoming name has_row i j (f ∷ from) rn =
    drop_incoming name has_row i (suc j) from (if has_row j then enable (name f i) false rn else rn)

module _ (name : ℕ → ℕ → String) (has_row : ℕ → Bool) where
  unfoldable pub connect_unlocked : ℕ → List ℕ → Network → Network
  unfolding set_ends
  connect_unlocked i to rn = set_ends true (λ j. name j i) to (set_ends true (name i) to rn)

  unfoldable pub disconnect_unlocked : ℕ → List ℕ → Network → Network
  unfolding set_ends drop_incoming
  disconnect_unlocked i from rn =
      drop_incoming name has_row i 0 from
        (if has_row i then set_ends false (name i) from rn else rn)

  -- One loop of `partition`, over the servers of one side that are left.
  unfoldable pub part_side : List ℕ → List ℕ → List ℕ → Network → Network
  unfolding connect_unlocked disconnect_unlocked
  part_side [] own others rn = rn
  part_side (i ∷ left) own others rn =
      part_side left own others (connect_unlocked i own (disconnect_unlocked i others rn))

  unfoldable pub partition : List ℕ → List ℕ → Network → Network
  unfolding part_side
  partition p1 p2 rn = part_side p2 p2 p1 (part_side p1 p1 p2 rn)

  unfoldable pub connect_each : ℕ → ℕ → List ℕ → Network → Network
  unfolding connect_unlocked
  connect_each zero i all rn = rn
  connect_each (suc left) i all rn = connect_each left (suc i) all (connect_unlocked i all rn)

-- `All`: the numbers from `i` on.
unfoldable pub all_from : ℕ → ℕ → List ℕ
all_from zero i = []
all_from (suc left) i = i ∷ all_from left (suc i)

-- `Leader`, from server `i` on: whether each server runs and its peer says that it leads.
unfoldable pub leader : ℕ → List Bool → Bool × ℕ
leader i [] = (false, 0)
leader i (leads ∷ rest) = let further = leader (suc i) rest in if leads then (true, i) else further

-- The loop of `make_partition`.
unfoldable pub place : ℕ → ℕ → ℕ → ℕ → List ℕ → List ℕ → List ℕ × List ℕ
place zero i j l p1 p2 = (p1, p2)
place (suc left) i j l p1 p2 = elim (i == l) [
  | true ↦ place left (suc i) j l p1 p2
  | false ↦ elim (ltb j (length p1)) [
    | true ↦ place left (suc i) (suc j) l (set p1 j i) p2
    | false ↦ place left (suc i) (suc j) l p1 (set p2 (j - length p1) i)
  ]
]

-- `p2[len(p2)-1] = l`, which panics if `p2` is empty.
abbrev pub put_last : ℕ → List ℕ → Option (List ℕ)
put_last l [] = none
put_last l (p ∷ ps) = some (set (p ∷ ps) (length ps) l)

unfoldable pub make_partition : ℕ → List Bool → Option (List ℕ × List ℕ)
unfolding leader place
make_partition n leads =
    let l = (leader 0 leads).1 in
    let (p1, p2) = place n 0 0 l (replicate (n / 2 + 1) 0) (replicate (n / 2) 0) in
    elim (put_last l p2) [ none ↦ none | some p2' ↦ some (p1, p2') ]

-- `ShutdownServer` and `StartServer` on the persisters.
unfoldable pub shutdown_disks : ℕ → Disks → Disks
unfolding copy_saved kill_raft
shutdown_disks i d = kill_raft i (copy_saved i d)

unfoldable pub start_server_disks : ℕ → Disks → Disks
unfolding copy_or_make make_raft
start_server_disks i d = make_raft i (copy_or_make i d)

-- The loop of `LogSize`, from server `i` on, which panics at a server without a persister.
unfoldable pub log_size : ℕ → ℕ → Disks → ℕ → Option ℕ
unfolding raft_state_size
log_size zero i d logsize = some logsize
log_size (suc left) i d logsize = elim (d.saved i) [
  | none ↦ none
  | some p ↦
      let n = raft_state_size (d.heap p) in
      log_size left (suc i) d (if ltb logsize n then n else logsize)
]

abbrev pub row_of : Option Row → Row
row_of none = λ j. ""
row_of (some row) = row

abbrev pub is_row : Option Row → Bool
is_row none = false
is_row (some row) = true

module _ (server_name : ℕ → String) (n : ℕ) where
  unfoldable pub shutdown_server : ℕ → Harness → Harness
  unfolding disconnect_unlocked shutdown_disks all_from
  shutdown_server i h = record h {
    net = delete_server (server_name i) (
        disconnect_unlocked (λ a. row_of (h.rows a)) (λ a. is_row (h.rows a)) i (all_from n 0)
          h.net);
    disks = shutdown_disks i h.disks;
  }

  -- `none` where MakeEnd ends the process.
  unfoldable pub start_server : ℕ → Row → Harness → Option Harness
  unfolding make_ends start_server_disks
  start_server i row h = elim (make_ends server_name n 0 row h.net) [
    | none ↦ none
    | some rn ↦ some (record h {
      net = add_server (server_name i) h.disks.count rn;
      disks = start_server_disks i h.disks;
      rows = update h.rows i (some row);
    })
  ]

  -- `ConnectClientUnlocked` and `DisconnectClientUnlocked`.
  unfoldable pub set_client : Bool → ℕ → List ℕ → Harness → Harness
  unfolding set_ends
  set_client on ck servers h = record h {
    net = set_ends on (row_of (lookup ck h.clerks)) servers h.net;
  }

  unfoldable pub make_client : ℕ → Row → List ℕ → Harness → Option Harness
  unfolding make_ends set_client
  make_client ck row to h = elim (make_ends server_name n 0 row h.net) [
    | none ↦ none
    | some rn ↦ some (
        set_client true ck to (record h {
          net = rn;
          clerks = insert ck row h.clerks;
          next_client_id = h.next_client_id + 1;
        }))
  ]

  unfoldable pub delete_client : ℕ → Harness → Harness
  delete_client ck h = record h { clerks = remove ck h.clerks }

  unfoldable pub start_servers : ℕ → ℕ → (ℕ → Row) → Harness → Option Harness
  unfolding start_server
  start_servers zero i drawn h = some h
  start_servers (suc left) i drawn h = elim (start_server i (drawn i) h) [
    | none ↦ none
    | some h' ↦ start_servers left (suc i) drawn h'
  ]

  unfoldable pub make_harness : Bool → (ℕ → Row) → Option Harness
  unfolding no_disks make_network start_servers connect_each all_from set_reliable
  make_harness unreliable drawn =
      let fresh : Harness = record {
        net = make_network;
        disks = no_disks;
        rows = λ i. none;
        clerks = [];
        next_client_id = n + 1000;
      } in
      elim (start_servers n 0 drawn fresh) [
        | none ↦ none
        | some h ↦ some (record h {
          net =
              set_reliable (if unreliable then false else true)
                (connect_each drawn (λ a. is_row (h.rows a)) n 0 (all_from n 0) h.net);
        })
      ]
