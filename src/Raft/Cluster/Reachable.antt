-- ===== src/Raft/Cluster/Reachable.antt =====
-- raft/config.go: after make_config every server can call every other.
use dist_kv_raft.Common.{
  ℕ, zero, suc, ◌+◌, ◌<◌, nat_eq, string_eq, Bool, true, false, Eq, Option, some, List, String,
  Bytes, lookup, set, length, length-replicate, ◌≡◌, sym, ap, ◌∙◌, subst, arith, inl, inr,
  Option-cases, none≢some, some_inj,
}
use dist_kv_raft.Labrpc.Network.{Network, add_server, delete_server, read_endname_info}
use dist_kv_raft.Raft.Wiring.{Wiring}
use dist_kv_raft.Raft.Wiring.Loops.{is_on}
use dist_kv_raft.Raft.Wiring.Partition.{AreNames, none_up}
use dist_kv_raft.Raft.Snapping.{Snapping}
use dist_kv_raft.Raft.Restart.{update, copy_or_make, make_raft}
use dist_kv_raft.Raft.Cluster.{
  Row, Cluster, detach, crash1, make_ends, ingest_saved, start1, start_all, connect_all,
  new_cluster, make_config,
}
use dist_kv_raft.Raft.Cluster.Joined.{connect_all-Joined}
use dist_kv_raft.Raft.Cluster.Ready.{Ready, AreDifferent, started_net}
use dist_kv_raft.Raft.Cluster.Total.{make_config_returns}

module _ (server_name : ℕ → String) (drawn : ℕ → Row) {V : Type 0} ⦃go : Eq V⦄ (nil : V)
    (encode : ℕ → List V → Bytes) (decode : Bytes → Option (ℕ × List V)) where
  start1_done :
      (i : ℕ) (c c' : Cluster V) (rn : Network) (snapping : Snapping V)
      → make_ends server_name
          (length (crash1 server_name i c).wiring.connected)
          0
          (drawn i)
          (crash1 server_name i c).wiring.net
        ≡ some rn
      → ingest_saved server_name nil encode decode i
          (copy_or_make i (crash1 server_name i c).disks)
          (record (crash1 server_name i c).snapping {
            last_applied = set (crash1 server_name i c).snapping.last_applied i 0;
          })
        ≡ some snapping
      → start1 server_name nil encode decode i (drawn i) c ≡ some c'
      → c' ≡ record {
        disks = make_raft i (copy_or_make i (crash1 server_name i c).disks);
        rows = update (crash1 server_name i c).rows i (some (drawn i));
        wiring = record (crash1 server_name i c).wiring {
          net = add_server (server_name i) (copy_or_make i (crash1 server_name i c).disks).count rn;
        };
        snapping = snapping;
      }
  unfolding start1
  start1_done i c c' rn snapping made ok e = some_inj (sym e ∙ rw (start1, made, ok))

  start1_wiring :
      (i : ℕ) (c c' : Cluster V)
      → start1 server_name nil encode decode i (drawn i) c ≡ some c'
      → (rn : Network) × (rs : ℕ) × (make_ends server_name
            (length (detach c.rows i c.wiring).connected)
            0
            (drawn i)
            (delete_server (server_name i) (detach c.rows i c.wiring).net)
          ≡ some rn)
        × (c'.wiring ≡ record {
          connected = (detach c.rows i c.wiring).connected;
          net = add_server (server_name i) rs rn;
        })
  unfolding start1 crash1
  start1_wiring i c c' e =
      let crashed = crash1 server_name i c in
      let disks = copy_or_make i crashed.disks in
      let zeroed = record crashed.snapping {
        last_applied = set crashed.snapping.last_applied i 0;
      } in
      elim (Option-cases
        (make_ends server_name (length crashed.wiring.connected) 0 (drawn i) crashed.wiring.net)) [
          | inl fails ↦ absurd (ground (arith, fails, e, none≢some {a = c'}))
          | inr (rn, made) ↦
              elim (Option-cases (ingest_saved server_name nil encode decode i disks zeroed)) [
                | inl fails ↦ absurd (ground (arith, made, fails, e, none≢some {a = c'}))
                | inr (snapping, ok) ↦ (
                  rn,
                  disks.count,
                  made,
                  ap (λ (x : Cluster V). x.wiring) (start1_done i c c' rn snapping made ok e),
                )
              ]
        ]

  start_all-Ready :
      (n left i j : ℕ) (c c' : Cluster V)
      → AreDifferent server_name drawn
      → i + left ≡ j
      → start_all server_name nil encode decode left i drawn c ≡ some c'
      → Ready server_name drawn n i c.wiring
      → Ready server_name drawn n j c'.wiring
  unfolding start_all
  start_all-Ready n zero i j c c' own end e r =
      subst (λ k. Ready server_name drawn n k c'.wiring) (omega arith)
        (subst (λ (x : Cluster V). Ready server_name drawn n i x.wiring) (some_inj e) r)
  start_all-Ready n (suc left) i j c c' own end e r =
      elim (Option-cases (start1 server_name nil encode decode i (drawn i) c)) [
        | inl fails ↦ absurd (ground (arith, fails, e, none≢some {a = c'}))
        | inr (c1, ok) ↦
            let (rn, rs, made, shape) = start1_wiring i c c1 ok in
            start_all-Ready n left (suc i) j c1 c' own (omega arith) (ground (arith, ok, e)) (
              subst (Ready server_name drawn n (suc i)) (sym shape)
                (started_net server_name drawn n i rs c.rows c.wiring rn own made r))
      ]

-- What a request finds on an end: it is enabled, and leads to a server that is there.
abbrev pub Finds : String → String → ℕ → Network → Type 0
Finds endname servername rs rn =
    ((read_endname_info endname rn).enabled ≡ true)
    × ((read_endname_info endname rn).servername ≡ some servername)
    × ((read_endname_info endname rn).server ≡ some rs)

info_of :
    (endname servername : String) (rs : ℕ) (rn : Network)
    → is_on endname rn ≡ true
    → lookup endname rn.connections ≡ some (some servername)
    → lookup servername rn.servers ≡ some (some rs)
    → Finds endname servername rs rn
unfolding read_endname_info
info_of endname servername rs rn on leads at = (on, rw leads, ground (arith, leads, at))

module _ {V : Type 0} ⦃go : Eq V⦄ (nil : V) (encode : ℕ → List V → Bytes)
    (decode : Bytes → Option (ℕ × List V)) where
  new_cluster-Ready :
      (server_name : ℕ → String) (drawn : ℕ → Row) (n : ℕ) (unreliable : Bool)
      → Ready server_name drawn n 0 (new_cluster {V = V} n unreliable).wiring
  unfolding new_cluster
  new_cluster-Ready server_name drawn n unreliable = record {
    ends = λ a b la lb. absurd (omega arith);
    present = λ a la. absurd (omega arith);
    size = length-replicate n false;
    down = none_up n;
  }

  config_wiring :
      (server_name : ℕ → String) (drawn : ℕ → Row) (n : ℕ) (unreliable : Bool)
      (c started : Cluster V)
      → start_all server_name nil encode decode n 0 drawn (new_cluster n unreliable) ≡ some started
      → make_config server_name nil encode decode n unreliable drawn ≡ some c
      → c.wiring ≡ connect_all n 0 drawn started.wiring
  unfolding make_config
  config_wiring server_name drawn n unreliable c started ok e =
      let whole : make_config server_name nil encode decode n unreliable drawn
          ≡ some (record started { wiring = connect_all n 0 drawn started.wiring }) =
        rw (make_config, ok) in
      ap (λ (x : Cluster V). x.wiring) (some_inj (sym e ∙ whole))

  config_inv :
      (server_name : ℕ → String) (drawn : ℕ → Row) (n : ℕ) (unreliable : Bool) (c : Cluster V)
      → make_config server_name nil encode decode n unreliable drawn ≡ some c
      → (started : Cluster V) × (start_all server_name nil encode decode n 0 drawn
            (new_cluster n unreliable)
          ≡ some started)
        × (c.wiring ≡ connect_all n 0 drawn started.wiring)
  unfolding make_config
  config_inv server_name drawn n unreliable c e =
      elim (Option-cases
        (start_all server_name nil encode decode n 0 drawn (new_cluster n unreliable))) [
          | inl fails ↦ absurd (ground (arith, fails, e, none≢some {a = c}))
          | inr (started, ok) ↦
              (started, ok, config_wiring server_name drawn n unreliable c started ok e)
        ]

  reached :
      (server_name : ℕ → String) (drawn : ℕ → Row) (n : ℕ) (unreliable : Bool) (c : Cluster V)
      (a b : ℕ)
      → AreNames drawn
      → ((i j : ℕ) → server_name i ≡ server_name j → i ≡ j)
      → make_config server_name nil encode decode n unreliable drawn ≡ some c
      → a < n
      → b < n
      → (rs : ℕ) × Finds (drawn a b) (server_name b) rs c.wiring.net
  reached server_name drawn n unreliable c a b names own e la lb =
      let (started, ok, shape) = config_inv server_name drawn n unreliable c e in
      let r =
        start_all-Ready server_name drawn nil encode decode n n 0 n (new_cluster n unreliable)
          started own (omega arith) ok (new_cluster-Ready server_name drawn n unreliable) in
      let joined =
        connect_all-Joined drawn names n 0 started.wiring (omega (arith, r.size)) (λ x y lx ly.
          (r.ends x y (omega (arith, r.size)) (omega (arith, r.size))).off
          ∙ ground (arith, r.down x)) in
      let final = connect_all n 0 drawn started.wiring in
      let (rs, there) = r.present b lb in
      let on =
        joined.exact a b (omega (arith, joined.size, r.size))
          (omega (arith, joined.size, r.size)) in
      let up_a = joined.up a (omega arith) (omega arith) in
      let up_b = joined.up b (omega arith) (omega arith) in
      let leads = ap (lookup (drawn a b)) joined.connections ∙ (r.ends a b la lb).leads in
      let at = ap (lookup (server_name b)) joined.servers ∙ there in
      let found =
        info_of (drawn a b) (server_name b) rs final.net (ground (arith, on, up_a, up_b)) leads
          at in
      (rs, subst (λ (w : Wiring). Finds (drawn a b) (server_name b) rs w.net) (sym shape) found)

  -- Let all names that are drawn differ, and the servers have keys of their own. Then make_config
  -- sets up n servers without ending the test, and a request of any server a to any server b finds
  -- the end enabled, and connected to server b, which is there.
  pub all_reach_all :
      (server_name : ℕ → String) (drawn : ℕ → Row) (n : ℕ) (unreliable : Bool)
      → AreNames drawn
      → ((i j : ℕ) → server_name i ≡ server_name j → i ≡ j)
      → (c : Cluster V) × (make_config server_name nil encode decode n unreliable drawn ≡ some c)
        × ((a b : ℕ) → a < n → b < n → (rs : ℕ) × Finds (drawn a b) (server_name b) rs c.wiring.net)
  all_reach_all server_name drawn n unreliable names own =
      let (c, e) = make_config_returns server_name nil encode decode drawn n unreliable names in
      (c, e, λ a b la lb. reached server_name drawn n unreliable c a b names own e la lb)
