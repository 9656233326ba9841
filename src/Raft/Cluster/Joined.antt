-- ===== src/Raft/Cluster/Joined.antt =====
-- raft/config.go: the loop of make_config that connects the servers.
use dist_kv_raft.Common.{
  ℕ, zero, suc, ◌+◌, ◌≤◌, ◌<◌, ◌==◌, nat_eq, string_eq, true, set, length, length-set, ◌≡◌, refl,
  ap, ◌∙◌, arith, inl, inr, Bool-cases,
}
use dist_kv_raft.Raft.Wiring.{Wiring, enable_connected, connect_server}
use dist_kv_raft.Raft.Wiring.Loops.{is_up}
use dist_kv_raft.Raft.Wiring.Partition.{AreNames, IsExact, is_up-set, connect-IsExact}
use dist_kv_raft.Raft.Cluster.{Row, connect_all}
use dist_kv_raft.Raft.Cluster.Ready.{enable_connected_keeps}

module _ (drawn : ℕ → Row) (names : AreNames drawn) where
  connect_keeps :
      (i : ℕ) (w : Wiring)
      → ((connect_server drawn i w).net.servers ≡ w.net.servers)
        × ((connect_server drawn i w).net.connections ≡ w.net.connections)
  unfolding connect_server
  connect_keeps i w =
      let cs = set w.connected i true in
      let out = enable_connected (drawn i) 0 cs w.net in
      let first = enable_connected_keeps (drawn i) 0 cs w.net in
      let second = enable_connected_keeps (λ j. drawn j i) 0 cs out in
      (second.0 ∙ first.0, second.1 ∙ first.1)

  connected_flags :
      (i : ℕ) (w : Wiring) → (connect_server drawn i w).connected ≡ set w.connected i true
  unfolding connect_server
  connected_flags i w = refl

  -- From `w` on the servers from `i` on have been connected.
  pub record Joined (left i : ℕ) (w w' : Wiring) : Type 0 where
    pub exact : IsExact drawn w'
    pub size : length w'.connected ≡ length w.connected
    pub up : (a : ℕ) → i ≤ a → a < i + left → is_up a w'.connected ≡ true
    pub kept : (a : ℕ) → is_up a w.connected ≡ true → is_up a w'.connected ≡ true
    pub servers : w'.net.servers ≡ w.net.servers
    pub connections : w'.net.connections ≡ w.net.connections

  pub connect_all-Joined :
      (left i : ℕ) (w : Wiring)
      → i + left ≤ length w.connected
      → IsExact drawn w
      → Joined left i w (connect_all left i drawn w)
  unfolding connect_all
  connect_all-Joined zero i w room x = record {
    exact = x;
    size = refl;
    up = λ a low high. absurd (omega arith);
    kept = λ a u. u;
    servers = refl;
    connections = refl;
  }
  connect_all-Joined (suc left) i w room x =
      let w1 = connect_server drawn i w in
      let flags = connected_flags i w in
      let size1 : length w1.connected ≡ length w.connected =
        ap length flags ∙ length-set w.connected i true in
      let up1 = λ (a : ℕ). ap (is_up a) flags ∙ is_up-set a i true w.connected (omega arith) in
      let further =
        connect_all-Joined left (suc i) w1 (omega arith)
          (connect-IsExact drawn names i w (omega arith) x) in
      let same = connect_keeps i w in
      record {
        exact = further.exact;
        size = further.size ∙ size1;
        up = λ a low high. elim (Bool-cases (a == i)) [
          | inl here ↦ further.kept a (ground (arith, up1 a, here))
          | inr later ↦ further.up a (ground (arith, later)) (omega arith)
        ];
        kept = λ a u. further.kept a (ground (arith, up1 a, u));
        servers = further.servers ∙ same.0;
        connections = further.connections ∙ same.1;
      }
