-- ===== src/Shardctrler/Harness/Clerks.antt =====
-- shardctrler/config.go: the ends of a new clerk.
use dist_kv_raft.Common.{
  ℕ, ◌+◌, ◌<◌, ◌==◌, nat_eq, string_eq, beq_refl, if◌then◌else◌, Bool, true, none, some, List, [],
  ◌∷◌, String, lookup, lookup-insert, insert, ◌≡◌, refl, ap, ◌∙◌, arith, Bool-cases, inl, inr,
}
use dist_kv_raft.Labrpc.Network.{Network, enable}
use dist_kv_raft.Raft.Wiring.Loops.{is_on, on_enabled, AreDistinct}
use dist_kv_raft.Raft.Cluster.{Row}
use dist_kv_raft.Raft.Cluster.Started.{make_ends-Made}
use dist_kv_raft.Raft.Cluster.Total.{make_ends_returns}
use dist_kv_raft.Shardctrler.Harness.{Harness, set_ends, row_of, set_client, make_client}
use dist_kv_raft.Shardctrler.Harness.Parted.{mem}

same_place : (row : Row) (a b : ℕ) → AreDistinct row → (row a == row b) ≡ (a == b)
same_place row a b own = elim (Bool-cases (row a == row b)) [
  | inl same ↦ same ∙ ground (arith, own a b ((string_eq.equal_iff (row a) (row b)).0 same))
  | inr differs ↦ ground (arith, differs, beq_refl (row a), ap row {x = a} {y = b})
]

set_row :
    (row : Row) (b : ℕ) (on : Bool) (js : List ℕ) (rn : Network)
    → AreDistinct row
    → is_on (row b) (set_ends on row js rn) ≡ (if mem b js then on else is_on (row b) rn)
unfolding set_ends
set_row row b on [] rn own = ground arith
set_row row b on (j ∷ js) rn own =
    set_row row b on js (enable (row j) on rn) own
    ∙ ground (arith, on_enabled (row b) (row j) on rn, same_place row j b own)

set_ends_connections :
    (row : Row) (on : Bool) (js : List ℕ) (rn : Network)
    → (set_ends on row js rn).connections ≡ rn.connections
unfolding set_ends enable
set_ends_connections row on [] rn = refl
set_ends_connections row on (j ∷ js) rn = set_ends_connections row on js (enable (row j) on rn)

module _ (server_name : ℕ → String) (n : ℕ) where
  -- If the names that are drawn are new and differ, `makeClient` makes a clerk whose ends lead to
  -- the n servers; the end to a server is enabled exactly when the server is listed in `to`. The
  -- clerk is known by these ends, and the next client id is one higher.
  pub make_client_lem :
      (ck : ℕ) (row : Row) (to : List ℕ) (h : Harness)
      → AreDistinct row
      → ((k : ℕ) → lookup (row k) h.net.ends ≡ none)
      → (h' : Harness) × (make_client server_name n ck row to h ≡ some h')
        × ((j : ℕ)
            → j < n
            → (is_on (row j) h'.net ≡ mem j to)
              × (lookup (row j) h'.net.connections ≡ some (some (server_name j))))
        × (lookup ck h'.clerks ≡ some row)
        × (h'.next_client_id ≡ h.next_client_id + 1)
  unfolding make_client set_client
  make_client_lem ck row to h own new =
      let (rn, e, keeps) = make_ends_returns server_name n 0 row h.net own (λ k low. new k) in
      let made = make_ends-Made server_name n 0 row h.net rn e in
      let known : lookup ck (insert ck row h.clerks) ≡ some row =
        ground (arith, lookup-insert ck ck row h.clerks, beq_refl ck) in
      let row_is : row_of (lookup ck (insert ck row h.clerks)) ≡ row = ap row_of known in
      (
        record h {
          net = set_ends true (row_of (lookup ck (insert ck row h.clerks))) to rn;
          clerks = insert ck row h.clerks;
          next_client_id = h.next_client_id + 1;
        },
        rw (make_client, e),
        λ j lt.
            let off = made.ends j (omega arith) (omega arith) in
            (
              ap (λ r. is_on (row j) (set_ends true r to rn)) row_is
                  ∙ set_row row j true to rn own
                  ∙ ground (arith, off.off),
              ap (λ r. lookup (row j) (set_ends true r to rn).connections) row_is
                  ∙ ap (lookup (row j)) (set_ends_connections row true to rn)
                  ∙ off.leads,
            ),
        known,
        refl,
      )
