-- ===== src/Raft/Cluster/Ready.antt =====
-- raft/config.go: the network as the servers are started one after the other.
use dist_kv_raft.Common.{
  ℕ, zero, suc, ◌<◌, ◌==◌, nat_eq, nat_beq_iff, string_eq, beq_refl, Bool, true, false, Option,
  none, some, List, [], ◌∷◌, String, lookup, lookup-insert, set, length, length-set, ◌≡◌, refl, sym,
  ap, ◌∙◌, subst, arith, inl, inr, Bool-cases,
}
use dist_kv_raft.Labrpc.Network.{Network, add_server, delete_server, enable}
use dist_kv_raft.Raft.Wiring.{Wiring, disable_all, enable_connected}
use dist_kv_raft.Raft.Wiring.Loops.{is_up}
use dist_kv_raft.Raft.Cluster.{Row, disable_incoming, detach, make_ends}
use dist_kv_raft.Raft.Cluster.Started.{
  IsOff, detach-IsOff, add_server-IsOff, delete_server-IsOff, make_ends-Made,
}

-- The servers and the ends are as before.
pub record SameNet (rn rn' : Network) : Type 0 where
  pub servers : rn'.servers ≡ rn.servers
  pub ends : rn'.ends ≡ rn.ends

then_same : {rn1 rn2 rn3 : Network} → SameNet rn1 rn2 → SameNet rn2 rn3 → SameNet rn1 rn3
then_same s t = record { servers = t.servers ∙ s.servers; ends = t.ends ∙ s.ends }

module _ (name : ℕ → String) where
  disable_all_keeps :
      (j : ℕ) (cs : List Bool) (rn : Network) → SameNet rn (disable_all name j cs rn)
  unfolding disable_all enable
  disable_all_keeps j [] rn = record { servers = refl; ends = refl }
  disable_all_keeps j (c ∷ cs) rn =
      let rest = disable_all_keeps (suc j) cs (enable (name j) false rn) in
      record { servers = rest.servers; ends = rest.ends }

  -- The loop of `connect` changes only which ends are enabled.
  pub enable_connected_keeps :
      (j : ℕ) (cs : List Bool) (rn : Network)
      → ((enable_connected name j cs rn).servers ≡ rn.servers)
        × ((enable_connected name j cs rn).connections ≡ rn.connections)
  unfolding enable_connected enable
  enable_connected_keeps j [] rn = (refl, refl)
  enable_connected_keeps j (true ∷ cs) rn =
      enable_connected_keeps (suc j) cs (enable (name j) true rn)
  enable_connected_keeps j (false ∷ cs) rn = enable_connected_keeps (suc j) cs rn

out_keeps :
    (o : Option Row) (cs : List Bool) (rn : Network)
    → SameNet rn (elim o as (λ x. Network) [ none ↦ rn | some row ↦ disable_all row 0 cs rn ])
out_keeps none cs rn = record { servers = refl; ends = refl }
out_keeps (some row) cs rn = disable_all_keeps row 0 cs rn

one_keeps :
    (o : Option Row) (i : ℕ) (rn : Network)
    → SameNet rn (elim o as (λ x. Network) [ none ↦ rn | some row ↦ enable (row i) false rn ])
unfolding enable
one_keeps none i rn = record { servers = refl; ends = refl }
one_keeps (some row) i rn = record { servers = refl; ends = refl }

disable_incoming_keeps :
    (rows : ℕ → Option Row) (i j : ℕ) (cs : List Bool) (rn : Network)
    → SameNet rn (disable_incoming rows i j cs rn)
unfolding disable_incoming
disable_incoming_keeps rows i j [] rn = record { servers = refl; ends = refl }
disable_incoming_keeps rows i j (c ∷ cs) rn =
    let next : Network = elim (rows j) [ none ↦ rn | some row ↦ enable (row i) false rn ] in
    then_same (one_keeps (rows j) i rn) (disable_incoming_keeps rows i (suc j) cs next)

pub detach_keeps :
    (rows : ℕ → Option Row) (i : ℕ) (w : Wiring) → SameNet w.net (detach rows i w).net
unfolding detach
detach_keeps rows i w =
    let cs = set w.connected i false in
    let out : Network = elim (rows i) [ none ↦ w.net | some row ↦ disable_all row 0 cs w.net ] in
    then_same (out_keeps (rows i) cs w.net) (disable_incoming_keeps rows i 0 cs out)

set_down :
    (cs : List Bool) (i : ℕ)
    → ((a : ℕ) → is_up a cs ≡ false)
    → (a : ℕ) → is_up a (set cs i false) ≡ false
set_down [] i down a = down a
set_down (c ∷ cs) zero down zero = refl
set_down (c ∷ cs) zero down (suc a) = down (suc a)
set_down (c ∷ cs) (suc i) down zero = down zero
set_down (c ∷ cs) (suc i) down (suc a) = set_down cs i (λ b. down (suc b)) a

module _ (server_name : ℕ → String) (drawn : ℕ → Row) where
  -- The first k of n servers have been started, and none is connected.
  pub record Ready (n k : ℕ) (w : Wiring) : Type 0 where
    pub ends : (a b : ℕ) → a < k → b < n → IsOff (drawn a b) (server_name b) w.net
    pub present :
        (a : ℕ) → a < k → (rs : ℕ) × (lookup (server_name a) w.net.servers ≡ some (some rs))
    pub size : length w.connected ≡ n
    pub down : (a : ℕ) → is_up a w.connected ≡ false

  abbrev pub AreDifferent : Type 0
  AreDifferent = (i j : ℕ) → server_name i ≡ server_name j → i ≡ j

  other_server :
      (i j : ℕ) → AreDifferent → (i == j) ≡ false → (server_name i == server_name j) ≡ false
  other_server i j own differs = elim (Bool-cases (server_name i == server_name j)) [
    | inl same ↦
        ground
          (arith, differs, own i j ((string_eq.equal_iff (server_name i) (server_name j)).0 same))
    | inr other ↦ other
  ]

  -- The network while server i is started again.
  pub started_net :
      (n i rs : ℕ) (rows : ℕ → Option Row) (w : Wiring) (rn : Network)
      → AreDifferent
      → make_ends server_name
          (length (detach rows i w).connected)
          0
          (drawn i)
          (delete_server (server_name i) (detach rows i w).net)
        ≡ some rn
      → Ready n i w
      → Ready n (suc i) (record {
        connected = (detach rows i w).connected;
        net = add_server (server_name i) rs rn;
      })
  unfolding detach add_server delete_server
  started_net n i rs rows w rn own e r =
      let made =
        make_ends-Made server_name (length (set w.connected i false)) 0 (drawn i)
          (delete_server (server_name i) (detach rows i w).net) rn e in
      let size = length-set w.connected i false ∙ r.size in
      record {
        ends = λ a b la lb.
            add_server-IsOff (drawn a b) (server_name b) (server_name i) rs rn
              (elim (Bool-cases (a == i)) [
                | inl same ↦
                    subst (λ x. IsOff (drawn x b) (server_name b) rn)
                      (sym ((nat_beq_iff a i).0 same)) (made.ends b (omega arith) (omega arith))
                | inr differs ↦ made.old (drawn a b) (server_name b) (
                    delete_server-IsOff (drawn a b) (server_name b) (server_name i)
                      (detach rows i w).net
                      (detach-IsOff (drawn a b) (server_name b) rows i w
                        (r.ends a b (ground (arith, differs)) lb)))
              ]);
        present = λ a la. elim (Bool-cases (i == a)) [
          | inl same ↦ (
            rs,
            ground (
              arith,
              lookup-insert (server_name i) (server_name a) (some rs) rn.servers,
              beq_refl (server_name a),
              ap server_name ((nat_beq_iff i a).0 same),
            ),
          )
          | inr differs ↦
              let (old, at) = r.present a (ground (arith, differs)) in
              (
                old,
                ground (
                  arith,
                  lookup-insert (server_name i) (server_name a) (some rs) rn.servers,
                  lookup-insert (server_name i) (server_name a) none (detach rows i w).net.servers,
                  other_server i a own differs,
                  ap (lookup (server_name a)) made.servers,
                  ap (lookup (server_name a)) (detach_keeps rows i w).servers,
                  at,
                ),
              )
        ];
        size = size;
        down = set_down w.connected i r.down;
      }
