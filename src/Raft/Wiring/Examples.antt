-- ===== src/Raft/Wiring/Examples.antt =====
-- Three servers, of which one is cut off.
use dist_kv_raft.Common.{refl, arith, false, List, [], ◌∷◌, replicate, lookup}
use dist_kv_raft.Labrpc.Network.{make_network}
use dist_kv_raft.Raft.Wiring.{Change, connects, disconnects, rewire}
use dist_kv_raft.Raft.Wiring.Names.{end_name, end_name-AreNames}
use dist_kv_raft.Raft.Wiring.Partition.{IsExact, rewired_ends_match}

abbrev changes : List Change
changes = connects 0 ∷ connects 1 ∷ connects 2 ∷ disconnects 1 ∷ []

rewired_ends_match_example :
    IsExact end_name
      (rewire end_name changes (record { connected = replicate 3 false; net = make_network }))
unfolding make_network lookup
rewired_ends_match_example =
    rewired_ends_match end_name end_name-AreNames 3 make_network changes (λ a b. refl)
      (omega arith, (omega arith, (omega arith, (omega arith, tt))))
