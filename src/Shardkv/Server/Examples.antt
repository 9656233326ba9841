-- ===== src/Shardkv/Server/Examples.antt =====
-- A server that is killed while a handler waits.
use dist_kv_raft.Common.{
  ◌==◌, nat_eq, ◌≡◌, refl, Bool, true, false, List, [], ◌∷◌, none, some, lookup, insert, Bytes,
}
use dist_kv_raft.Shardkv.Types.{Op}
use dist_kv_raft.Shardkv.Server.{ShardKv, start_server, kill, killed, begin_wait, open_chan}
use dist_kv_raft.Shardkv.Server.Lives.{Event, submitted, killed_by_tester, after, never_killed}

abbrev matched : Op → Op → Bool
matched a b = a.client_id == b.client_id

abbrev ignored : Bytes → ShardKv → ShardKv
ignored snapshot kv = kv

abbrev killed_once : List Event
killed_once = submitted 3 true ∷ killed_by_tester ∷ []

waits_at_three :
    lookup 3 (after matched killed_once (start_server ignored [] 0 1000 100 [] 5)).commit_chan
    ≡ some none
unfolding start_server begin_wait open_chan lookup insert kill
waits_at_three = refl

never_killed_example :
    killed (after matched killed_once (start_server ignored [] 0 1000 100 [] 5)) ≡ false
never_killed_example = never_killed matched ignored [] 0 1000 100 [] 5 killed_once (λ s kv. refl)
