-- ===== src/Raft/Cluster/Total.antt =====
-- raft/config.go: make_config ends no test when all names that are drawn differ.
use dist_kv_raft.Common.{
  ℕ, zero, suc, ◌≤◌, nat_eq, string_eq, Bool, true, false, Eq, Option, none, some, List, [], String,
  Bytes, lookup, lookup-insert, insert, set, length, ◌≡◌, refl, ap, ◌∙◌, arith, inl, inr,
  Option-cases,
}
use dist_kv_raft.Labrpc.Network.{
  Network, make_network, make_end, connect, add_server, delete_server,
}
use dist_kv_raft.Raft.Storage.{read_snapshot}
use dist_kv_raft.Raft.Wiring.Partition.{AreNames}
use dist_kv_raft.Raft.Snapping.{Snapping}
use dist_kv_raft.Raft.Restart.{Disks, update, no_disks, copy_or_make, make_raft, start_disks}
use dist_kv_raft.Raft.Restart.Apart.{IsApart}
use dist_kv_raft.Raft.Restart.Crash.{crash_disks-IsApart, start_disks-IsApart, no_disks-IsApart}
use dist_kv_raft.Raft.Restart.Stable.{disk_of, disk_of-make, disk_of-crash, disk_of-start}
use dist_kv_raft.Raft.Cluster.{
  Row, Cluster, crash1, make_ends, ingest_saved, start1, start_all, connect_all, new_cluster,
  make_config,
}
use dist_kv_raft.Raft.Cluster.Ready.{detach_keeps}

module _ (server_name : ℕ → String) where
  made_end :
      (x : String) (rn : Network)
      → lookup x rn.ends ≡ none
      → (rn' : Network) × (make_end x rn ≡ some rn') × (rn'.ends ≡ insert x true rn.ends)
  unfolding make_end
  made_end x rn new = (
    record rn {
      ends = insert x true rn.ends;
      enabled = insert x false rn.enabled;
      connections = insert x none rn.connections;
    },
    rw (make_end, new),
    refl,
  )

  still_new :
      (x y : String) (rn rn' : Network)
      → rn'.ends ≡ insert x true rn.ends
      → ¬ (x ≡ y)
      → lookup y rn.ends ≡ none
      → lookup y rn'.ends ≡ none
  still_new x y rn rn' shape ne new =
      ap (lookup y) shape
      ∙ ground (arith, lookup-insert x y true rn.ends, new, ne, string_eq.equal_iff x y)

  -- New names make new ends, and leave all other names new.
  pub make_ends_returns :
      (left j : ℕ) (row : Row) (rn : Network)
      → ((k l : ℕ) → row k ≡ row l → k ≡ l)
      → ((k : ℕ) → j ≤ k → lookup (row k) rn.ends ≡ none)
      → (rn' : Network) × (make_ends server_name left j row rn ≡ some rn')
        × ((x : String)
            → ((k : ℕ) → ¬ (row k ≡ x))
            → lookup x rn.ends ≡ none
            → lookup x rn'.ends ≡ none)
  unfolding make_ends connect
  make_ends_returns zero j row rn own new = (rn, refl, λ x other n. n)
  make_ends_returns (suc left) j row rn own new =
      let (rn1, made, shape) = made_end (row j) rn (new j (omega arith)) in
      let next = connect (row j) (server_name j) rn1 in
      let (rn', e, keeps) = make_ends_returns left (suc j) row next own (λ k low.
        still_new (row j) (row k) rn next shape (λ same. absurd (omega (arith, own j k same)))
          (new k (omega arith))) in
      (
        rn',
        rw (make_ends, made) e,
        λ x other n. keeps x other (still_new (row j) x rn next shape (other j) n),
      )

module _ (server_name : ℕ → String) {V : Type 0} ⦃go : Eq V⦄ (nil : V) (encode : ℕ → List V → Bytes)
    (decode : Bytes → Option (ℕ × List V)) where
  -- A persister without a snapshot leaves nothing to ingest.
  nothing_saved :
      (i : ℕ) (d : Disks) (s : Snapping V)
      → disk_of i d ≡ some (record { raftstate = []; snapshot = [] })
      → ingest_saved server_name nil encode decode i d s ≡ some s
  unfolding ingest_saved read_snapshot
  nothing_saved i d s e = elim (Option-cases (d.saved i)) [
    | inl none_yet ↦ ground (arith, none_yet, e)
    | inr (p, at) ↦
        let held : d.heap p ≡ record { raftstate = []; snapshot = [] } = ground (arith, at, e) in
        rw (ingest_saved, at, held)
  ]

  -- Before the first start of a server.
  record Fresh (drawn : ℕ → Row) (k : ℕ) (c : Cluster V) : Type 0 where
    apart : IsApart none c.disks
    unsaved : (a : ℕ) → k ≤ a → disk_of a c.disks ≡ none
    unnamed : (a b : ℕ) → k ≤ a → lookup (drawn a b) c.wiring.net.ends ≡ none

  start1_returns :
      (drawn : ℕ → Row) (i : ℕ) (c : Cluster V)
      → AreNames drawn
      → Fresh drawn i c
      → (c' : Cluster V) × (start1 server_name nil encode decode i (drawn i) c ≡ some c')
        × Fresh drawn (suc i) c'
  unfolding start1 crash1 start_disks delete_server add_server
  start1_returns drawn i c names f =
      let crashed = crash1 server_name i c in
      let same = detach_keeps c.rows i c.wiring in
      let (rn, made, keeps) =
        make_ends_returns server_name (length crashed.wiring.connected) 0 (drawn i)
          crashed.wiring.net (λ k l e. (names i k i l e).1)
          (λ k low. ap (lookup (drawn i k)) same.ends ∙ f.unnamed i k (omega arith)) in
      let disks = copy_or_make i crashed.disks in
      let zeroed = record crashed.snapping {
        last_applied = set crashed.snapping.last_applied i 0;
      } in
      let crash_apart = (crash_disks-IsApart i c.disks f.apart).0 in
      let empty : disk_of i disks ≡ some (record { raftstate = []; snapshot = [] }) =
        disk_of-make none i crashed.disks crash_apart i
        ∙ ground (arith, disk_of-crash i i c.disks f.apart, f.unsaved i (omega arith)) in
      let ok = nothing_saved i disks zeroed empty in
      (
        record {
          disks = make_raft i disks;
          rows = update crashed.rows i (some (drawn i));
          wiring = record crashed.wiring { net = add_server (server_name i) disks.count rn };
          snapping = zeroed;
        },
        rw (start1, made, ok),
        record {
          apart = start_disks-IsApart i c.disks f.apart;
          unsaved = λ a low.
              disk_of-start a i c.disks f.apart ∙ ground (arith, low, f.unsaved a (omega arith));
          unnamed = λ a b low.
              keeps (drawn a b)
                (λ k e. let same_server = (names i k a b e).0 in absurd (omega arith))
                (ap (lookup (drawn a b)) same.ends ∙ f.unnamed a b (omega arith));
        },
      )

  start_all_returns :
      (drawn : ℕ → Row) (left i : ℕ) (c : Cluster V)
      → AreNames drawn
      → Fresh drawn i c
      → (c' : Cluster V) × (start_all server_name nil encode decode left i drawn c ≡ some c')
  unfolding start_all
  start_all_returns drawn zero i c names f = (c, refl)
  start_all_returns drawn (suc left) i c names f =
      let (c1, ok, fresh) = start1_returns drawn i c names f in
      let (c', e) = start_all_returns drawn left (suc i) c1 names fresh in
      (c', rw (start_all, ok) e)

  pub make_config_returns :
      (drawn : ℕ → Row) (n : ℕ) (unreliable : Bool)
      → AreNames drawn
      → (c : Cluster V) × (make_config server_name nil encode decode n unreliable drawn ≡ some c)
  unfolding make_config new_cluster no_disks make_network lookup
  make_config_returns drawn n unreliable names =
      let (c, e) =
        start_all_returns drawn n 0 (new_cluster n unreliable) names (record {
          apart = no_disks-IsApart;
          unsaved = λ a low. refl;
          unnamed = λ a b low. refl;
        }) in
      (record c { wiring = connect_all n 0 drawn c.wiring }, rw (make_config, e))
