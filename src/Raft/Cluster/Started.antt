-- ===== src/Raft/Cluster/Started.antt =====
-- raft/config.go: the ends that start1 makes stay, disabled and connected to their servers.
use dist_kv_raft.Common.{
  ℕ, zero, suc, ◌+◌, ◌≤◌, ◌<◌, ◌==◌, nat_eq, nat_beq_iff, string_eq, beq_refl, insert, set, Bool,
  true, false, Option, none, some, List, [], ◌∷◌, String, lookup, lookup-insert, ◌≡◌, refl, sym, ap,
  ◌∙◌, subst, arith, inl, inr, Option-cases, Bool-cases, none≢some, some_inj,
}
use dist_kv_raft.Labrpc.Network.{
  Network, make_end, connect, add_server, delete_server, enable, flag,
}
use dist_kv_raft.Raft.Wiring.{Wiring, disable_all}
use dist_kv_raft.Raft.Cluster.{Row, disable_incoming, detach, make_ends}

-- An end that exists, leads to a server and is disabled.
pub record IsOff (endname servername : String) (rn : Network) : Type 0 where
  pub known : lookup endname rn.ends ≡ some true
  pub off : flag (lookup endname rn.enabled) ≡ false
  pub leads : lookup endname rn.connections ≡ some (some servername)

module _ (endname servername : String) where
  disable-IsOff :
      (x : String) (rn : Network)
      → IsOff endname servername rn
      → IsOff endname servername (enable x false rn)
  unfolding enable
  disable-IsOff x rn e = record {
    known = e.known;
    off = ground (arith, e.off, lookup-insert x endname false rn.enabled);
    leads = e.leads;
  }

  disable_all-IsOff :
      (name : ℕ → String) (j : ℕ) (cs : List Bool) (rn : Network)
      → IsOff endname servername rn
      → IsOff endname servername (disable_all name j cs rn)
  unfolding disable_all
  disable_all-IsOff name j [] rn e = e
  disable_all-IsOff name j (c ∷ cs) rn e =
      disable_all-IsOff name (suc j) cs (enable (name j) false rn) (disable-IsOff (name j) rn e)

  maybe_enabled :
      (o : Option Row) (i : ℕ) (rn : Network)
      → IsOff endname servername rn
      → IsOff endname servername (elim o [ none ↦ rn | some row ↦ enable (row i) false rn ])
  maybe_enabled none i rn e = e
  maybe_enabled (some row) i rn e = disable-IsOff (row i) rn e

  maybe_disabled :
      (o : Option Row) (cs : List Bool) (rn : Network)
      → IsOff endname servername rn
      → IsOff endname servername (elim o [ none ↦ rn | some row ↦ disable_all row 0 cs rn ])
  maybe_disabled none cs rn e = e
  maybe_disabled (some row) cs rn e = disable_all-IsOff row 0 cs rn e

  disable_incoming-IsOff :
      (rows : ℕ → Option Row) (i j : ℕ) (cs : List Bool) (rn : Network)
      → IsOff endname servername rn
      → IsOff endname servername (disable_incoming rows i j cs rn)
  unfolding disable_incoming
  disable_incoming-IsOff rows i j [] rn e = e
  disable_incoming-IsOff rows i j (c ∷ cs) rn e =
      disable_incoming-IsOff rows i (suc j) cs
        (elim (rows j) [ none ↦ rn | some row ↦ enable (row i) false rn ])
        (maybe_enabled (rows j) i rn e)

  pub detach-IsOff :
      (rows : ℕ → Option Row) (i : ℕ) (w : Wiring)
      → IsOff endname servername w.net
      → IsOff endname servername (detach rows i w).net
  unfolding detach
  detach-IsOff rows i w e =
      let connected = set w.connected i false in
      disable_incoming-IsOff rows i 0 connected _ (maybe_disabled (rows i) connected w.net e)

  pub add_server-IsOff :
      (name : String) (rs : ℕ) (rn : Network)
      → IsOff endname servername rn
      → IsOff endname servername (add_server name rs rn)
  unfolding add_server
  add_server-IsOff name rs rn e = record { known = e.known; off = e.off; leads = e.leads }

  pub delete_server-IsOff :
      (name : String) (rn : Network)
      → IsOff endname servername rn
      → IsOff endname servername (delete_server name rn)
  unfolding delete_server
  delete_server-IsOff name rn e = record { known = e.known; off = e.off; leads = e.leads }

pub make_end_inv :
    (x : String) (rn rn' : Network)
    → make_end x rn ≡ some rn'
    → (lookup x rn.ends ≡ none)
      × (rn' ≡ record rn {
        ends = insert x true rn.ends;
        enabled = insert x false rn.enabled;
        connections = insert x none rn.connections;
      })
unfolding make_end
make_end_inv x rn rn' e = elim (Option-cases (lookup x rn.ends)) [
  | inl new ↦ (new, ground (arith, new, e))
  | inr (b, old) ↦ absurd (ground (arith, old, e, none≢some {a = rn'}))
]

-- A new end, connected.
abbrev pub wired : String → String → Network → Network
wired x servername rn = connect x servername (record rn {
  ends = insert x true rn.ends;
  enabled = insert x false rn.enabled;
  connections = insert x none rn.connections;
})

wired-IsOff : (x servername : String) (rn : Network) → IsOff x servername (wired x servername rn)
unfolding connect
wired-IsOff x servername rn = record {
  known = ground (arith, lookup-insert x x true rn.ends, beq_refl x);
  off = ground (arith, lookup-insert x x false rn.enabled, beq_refl x);
  leads =
      ground
        (arith, lookup-insert x x (some servername) (insert x none rn.connections), beq_refl x);
}

wired-IsOff_other :
    (endname servername x target : String) (rn : Network)
    → lookup x rn.ends ≡ none
    → IsOff endname servername rn
    → IsOff endname servername (wired x target rn)
unfolding connect
wired-IsOff_other endname servername x target rn new e = elim (Bool-cases (x == endname)) [
  | inl same ↦ absurd (
      none≢some
        (sym new ∙ ap (λ y. lookup y rn.ends) ((string_eq.equal_iff x endname).0 same) ∙ e.known))
  | inr differs ↦ record {
    known = ground (arith, lookup-insert x endname true rn.ends, e.known);
    off = ground (arith, lookup-insert x endname false rn.enabled, differs, e.off);
    leads = ground (
      arith,
      lookup-insert x endname (some target) (insert x none rn.connections),
      lookup-insert x endname none rn.connections,
      differs,
      e.leads,
    );
  }
]

wired_servers :
    (x servername : String) (rn : Network) → (wired x servername rn).servers ≡ rn.servers
unfolding connect
wired_servers x servername rn = refl

-- What a run of the loop leaves: old ends, the ends from `j` on, and the servers.
module _ (server_name : ℕ → String) where
  pub record Made (left j : ℕ) (row : Row) (rn rn' : Network) : Type 0 where
    pub old :
        (endname servername : String) → IsOff endname servername rn → IsOff endname servername rn'
    pub ends : (k : ℕ) → j ≤ k → k < j + left → IsOff (row k) (server_name k) rn'
    pub servers : rn'.servers ≡ rn.servers

  pub make_ends-Made :
      (left j : ℕ) (row : Row) (rn rn' : Network)
      → make_ends server_name left j row rn ≡ some rn'
      → Made left j row rn rn'
  unfolding make_ends
  make_ends-Made zero j row rn rn' e =
      let same = some_inj e in
      record {
        old = λ x t o. subst (IsOff x t) same o;
        ends = λ k low high. absurd (omega arith);
        servers = ap (λ (n : Network). n.servers) (sym same);
      }
  make_ends-Made (suc left) j row rn rn' e = elim (Option-cases (make_end (row j) rn)) [
    | inl fails ↦ absurd (ground (arith, fails, e, none≢some {a = rn'}))
    | inr (rn1, made) ↦
        let (new, shape) = make_end_inv (row j) rn rn1 made in
        let next = connect (row j) (server_name j) rn1 in
        let step : make_ends server_name left (suc j) row next ≡ some rn' =
          ground (arith, made, e) in
        let further = make_ends-Made left (suc j) row next rn' step in
        let here : next ≡ wired (row j) (server_name j) rn =
          ap (connect (row j) (server_name j)) shape in
        record {
          old = λ x t o. further.old x t (
              subst (IsOff x t) (sym here)
                (wired-IsOff_other x t (row j) (server_name j) rn new o));
          ends = λ k low high. elim (Bool-cases (k == j)) [
            | inl same ↦
                let at = (nat_beq_iff k j).0 same in
                subst (λ m. IsOff (row m) (server_name m) rn') (sym at)
                  (further.old (row j) (server_name j) (
                    subst (IsOff (row j) (server_name j)) (sym here)
                      (wired-IsOff (row j) (server_name j) rn)))
            | inr differs ↦ further.ends k (ground (arith, differs)) (omega arith)
          ];
          servers =
              further.servers
              ∙ ap (λ (n : Network). n.servers) here
              ∙ wired_servers (row j) (server_name j) rn;
        }
  ]
