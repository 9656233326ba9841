-- ===== src/Raft/Cluster/Examples.antt =====
-- Three servers.
use dist_kv_raft.Common.{
  ℕ, ◌<◌, ◌≡◌, false, Option, none, some, List, [], ◌∷◌, String, Bytes, nat_eq,
}
use dist_kv_raft.Raft.Wiring.Names.{tally, tally_inj, end_name, end_name-AreNames}
use dist_kv_raft.Raft.Cluster.{Cluster, make_config}
use dist_kv_raft.Raft.Cluster.Reachable.{Finds, all_reach_all}

abbrev server_key : ℕ → String
server_key i = tally i ""

abbrev encode : ℕ → List ℕ → Bytes
encode index xlog = index ∷ xlog

abbrev decode : Bytes → Option (ℕ × List ℕ)
decode [] = none
decode (index ∷ xlog) = some (index, xlog)

all_reach_all_example :
    (c : Cluster ℕ) × (make_config server_key 0 encode decode 3 false end_name ≡ some c)
    × ((a b : ℕ) → a < 3 → b < 3 → (rs : ℕ) × Finds (end_name a b) (server_key b) rs c.wiring.net)
all_reach_all_example =
    all_reach_all 0 encode decode server_key end_name 3 false end_name-AreNames
      (λ i j e. (tally_inj i j "" "" e).0)
