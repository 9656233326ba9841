-- ===== src/Shardctrler/Client/Examples.antt =====
-- Clerks of two servers, of which the second is the leader and loses its first answer.
use dist_kv_raft.Common.{
  ℕ, negsuc, ◌+◌, ◌==◌, string_eq, nat_eq, ◌≡◌, refl, ap, Bool, true, false, none, some, List, [],
  ◌∷◌, String, inl, inr, if◌then◌else◌, map, ltb, ◌&&◌, suc, arith, take, Dict,
}
use dist_kv_raft.Shardctrler.Types.{Config, JoinArgs, MoveArgs, QueryArgs, QueryReply, Ack, Op}
use dist_kv_raft.Shardctrler.Server.{Handlers, Event, applied, first_config, run, start_server}
use dist_kv_raft.Shardctrler.Server.Dedup.{replay}
use dist_kv_raft.Shardctrler.Server.Run.{Finishes, ops_of, Increasing, op_of}
use dist_kv_raft.Shardctrler.Client.{
  Clerk, Call, query, query_answer, join, join_stamp, ack_answer, move,
}
use dist_kv_raft.Shardctrler.Client.Loop.{try_rounds, try_servers, reply_of}
use dist_kv_raft.Shardctrler.Client.Returns.{query_returns, IsLeaderFrom, IsFromLeader}
use dist_kv_raft.Shardctrler.Client.Retries.{ops_sent, join_retries_all_run, move_retries_run_once}

abbrev clerk : Clerk
clerk = record { servers = "a" ∷ "b" ∷ []; client_id = 7 }

abbrev ask : Call QueryArgs QueryReply
ask n srv args =
    if srv == "b"
    then (if ltb n 2
        then none
        else some (record { wrong_leader = false; err = "OK"; config = first_config }))
    else some (record { wrong_leader = true; err = ""; config = first_config })

abbrev tell : {A : Type 0} → Call A Ack
tell n srv args =
    if srv == "b"
    then (if ltb n 2 then none else some (record { wrong_leader = false; err = "OK" }))
    else some (record { wrong_leader = true; err = "" })

abbrev time : ℕ → ℕ
time n = n + 100

query_asks_twice : (query ask time 3 clerk (negsuc 0)).next ≡ 4
unfolding query try_rounds try_servers reply_of query_answer
query_asks_twice = refl

b_leads : IsLeaderFrom ask 2 "b"
b_leads n args le =
    (record { wrong_leader = false; err = "OK"; config = first_config }, ground (arith, le), refl)

query_returns_example :
    (config : Config) × ((query ask time 3 clerk (negsuc 0)).result ≡ some config)
    × IsFromLeader ask clerk config
query_returns_example = query_returns ask time clerk (negsuc 0) 2 "b" b_leads (inr (inl refl))

abbrev join_op : JoinArgs → Op
join_op a = record {
  command = "Join";
  args_join = a.servers;
  args_leave = [];
  args_move_shard = 0;
  args_move_gid = 0;
  args_query = negsuc 0;
  reply_query = first_config;
  client_id = a.client_id;
  time_stamp = a.time_stamp;
}

abbrev move_op : MoveArgs → Op
move_op a =
    record (join_op (record { servers = []; client_id = a.client_id; time_stamp = a.time_stamp })) {
      command = "Move";
      args_move_shard = a.shard;
      args_move_gid = a.gid;
    }

-- The attempts as Raft delivers them, from index `b` on.
abbrev delivered : ℕ → List Op → List Event
delivered b [] = []
delivered b (op ∷ ops) =
    applied (record {
      command_valid = true;
      command = some op;
      command_index = b;
      snapshot_valid = false;
      snapshot = [];
      snapshot_term = 0;
      snapshot_index = 0;
    })
    ∷ delivered (suc b) ops

delivered-Increasing : (b : ℕ) (ops : List Op) → Increasing b (delivered b ops)
unfolding op_of
delivered-Increasing b [] = tt
delivered-Increasing b (op ∷ ops) = (omega arith, delivered-Increasing (suc b) ops)

ops_of-delivered : (b : ℕ) (ops : List Op) → ops_of (delivered b ops) ≡ ops
unfolding op_of
ops_of-delivered b [] = refl
ops_of-delivered b (op ∷ ops) = ap (◌∷◌ op) (ops_of-delivered (suc b) ops)

abbrev add : Op → List Config → Op × List Config
add op configs = (op, first_config ∷ configs)

abbrev handlers : Handlers
handlers = record { join = add; leave = add; move = add; query = λ op configs. (op, configs) }

abbrev matched : Op → Op → Bool
matched a b = a.client_id == b.client_id && a.time_stamp == b.time_stamp

abbrev groups : Dict ℕ (List String)
groups = (1, "x" ∷ []) ∷ []

abbrev joins : List Op
joins = ops_sent join_op (join tell time 3 clerk groups).sent

four_joins : map (λ op. op.time_stamp) joins ≡ 100 ∷ 101 ∷ 102 ∷ 103 ∷ []
unfolding join join_stamp try_rounds try_servers reply_of ack_answer
four_joins = refl

join_retries_all_run_example :
    Finishes
      (run handlers matched (delivered 1 joins) (start_server 0))
      (λ s. s.configs ≡ replay handlers joins (first_config ∷ []))
join_retries_all_run_example =
    join_retries_all_run handlers matched 0 1 (delivered 1 joins) tell time 3 clerk groups join_op
      (λ n. omega arith) (λ a. refl) (delivered-Increasing 1 joins) (ops_of-delivered 1 joins)

abbrev moves : List Op
moves = ops_sent move_op (move tell time 3 clerk 4 1).sent

move_retries_run_once_example :
    Finishes
      (run handlers matched (delivered 1 moves) (start_server 0))
      (λ s. s.configs ≡ replay handlers (take 1 moves) (first_config ∷ []))
move_retries_run_once_example =
    move_retries_run_once handlers matched 0 1 (delivered 1 moves) tell time 3 clerk 4 1 move_op
      (λ a. (refl, refl)) (delivered-Increasing 1 moves) (ops_of-delivered 1 moves)
