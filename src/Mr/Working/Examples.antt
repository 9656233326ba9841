-- ===== src/Mr/Working/Examples.antt =====
-- Two files and one reduce task, with two rounds to idle. The second map task is late.
use dist_kv_raft.Common.{◌==◌, nat_eq, true, false, some, List, [], ◌∷◌, Bytes}
use dist_kv_raft.Mr.Types.{WorkerArgs}
use dist_kv_raft.Mr.Working.{Setting}

abbrev names : List Bytes
names = (b'p' ∷ []) ∷ (b'q' ∷ []) ∷ []

abbrev me : WorkerArgs
me = record { worker_id = 4; worker_addr = b'w' ∷ [] }

abbrev setting : Setting
setting = record {
  dials = λ addr. true;
  read = λ name. some name;
  can_open = λ name. true;
  mapf = λ name text. record { key = text; value = name } ∷ [];
  sort = λ kvs. kvs;
  reducef = λ key values. key;
  is_late_map = λ i. i == 1;
  is_late_reduce = λ i. false;
}
