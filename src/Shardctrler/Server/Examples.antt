-- ===== src/Shardctrler/Server/Examples.antt =====
-- Runs of the controller on small histories, and its theorems at concrete inputs.
use dist_kv_raft.Common.{
  ℕ, zero, suc, ◌+◌, pos, ◌≡◌, refl, Bool, true, false, some, List, [], ◌∷◌, ◌++◌, arith, All, ◌&&◌,
  ◌==◌, nat_eq, length, get_elem?, lookup, insert, inr,
}
use dist_kv_raft.Raft.Types.{ApplyMsg}
use dist_kv_raft.Shardctrler.Types.{Config, Op}
use dist_kv_raft.Shardctrler.Server.{
  Handlers, Event, applied, submitted, awaited, killed_by_tester, is_new, dispatch, execute, step,
  run, start_server, first_config, apply_op, begin_wait, end_wait,
}
use dist_kv_raft.Shardctrler.Server.Dedup.{accepted, replay}
use dist_kv_raft.Shardctrler.Server.Run.{op_of, ops_of, Increasing, Finishes}
use dist_kv_raft.Shardctrler.Server.History.{configs-run, run_ignores_repeats, wait_gets_applied}
use dist_kv_raft.Shardctrler.Server.Numbering.{Extends, AreNumbering, IsNumbered, run-IsNumbered}

abbrev number_of : List Config → ℕ
number_of [] = 0
number_of (c ∷ []) = c.num
number_of (c ∷ d ∷ cs) = number_of (d ∷ cs)

-- Handlers that add a copy of the first configuration under the next number.
abbrev add : Op → List Config → Op × List Config
add op configs = (op, configs ++ record first_config { num = number_of configs + 1 } ∷ [])

abbrev keep : Op → List Config → Op × List Config
keep op configs = (op, configs)

abbrev handlers : Handlers
handlers = record { join = add; leave = add; move = add; query = keep }

abbrev matched : Op → Op → Bool
matched a b = a.client_id == b.client_id && a.time_stamp == b.time_stamp

abbrev join_at : ℕ → Op
join_at t = record {
  command = "Join";
  args_join = [];
  args_leave = [];
  args_move_shard = 0;
  args_move_gid = 0;
  args_query = pos 0;
  reply_query = first_config;
  client_id = 7;
  time_stamp = t;
}

abbrev message : Op → ℕ → ApplyMsg Op
message op index = record {
  command_valid = true;
  command = some op;
  command_index = index;
  snapshot_valid = false;
  snapshot = [];
  snapshot_term = 0;
  snapshot_index = 0;
}

-- The second message repeats the first, and the third is later.
abbrev history : List Event
history =
    submitted 1 true
    ∷ applied (message (join_at 5) 1)
    ∷ killed_by_tester
    ∷ applied (message (join_at 5) 2)
    ∷ awaited (join_at 5) 1
    ∷ applied (message (join_at 6) 4)
    ∷ []

history-Increasing : Increasing 1 history
unfolding op_of
history-Increasing = omega arith

two_joins : Finishes (run handlers matched history (start_server 0)) (λ s. length s.configs ≡ 3)
unfolding run step start_server dispatch is_new lookup insert
two_joins = refl

configs-run_example :
    Finishes
      (run handlers matched history (start_server 0))
      (λ s. s.configs ≡ replay handlers (accepted [] (ops_of history)) (first_config ∷ []))
configs-run_example = configs-run handlers matched 0 1 history history-Increasing

run_ignores_repeats_example :
    Finishes
      (run handlers matched history (start_server 0))
      (λ s. All (λ op. execute handlers op s ≡ (op, s)) (ops_of history))
run_ignores_repeats_example = run_ignores_repeats handlers matched 0 1 history history-Increasing

nothing_waits : (o : Op) → lookup 3 (start_server 0).index_chan ≡ some (some o) → ⊥
unfolding start_server lookup
nothing_waits o e = ground arith

wait_gets_applied_example :
    let answer = (execute handlers (join_at 6) (start_server 0)).0 in
    Finishes
      (apply_op handlers (join_at 6) 3 (begin_wait (3, true) (start_server 0)).1)
      (λ s. (end_wait matched (join_at 5) 3 s).0 ≡ (matched (join_at 5) answer, answer))
    × Finishes (apply_op handlers (join_at 6) 3 (start_server 0)) (λ s.
      (end_wait matched (join_at 5) 3 (begin_wait (3, true) s).1).0
      ≡ (matched (join_at 5) answer, answer))
wait_gets_applied_example =
    wait_gets_applied handlers matched (join_at 5) (join_at 6) 3 (start_server 0) nothing_waits

number_of_last :
    (configs : List Config) (last : ℕ) (latest : Config)
    → length configs ≡ suc last
    → get_elem? configs last ≡ some latest
    → number_of configs ≡ latest.num
number_of_last [] last latest len e = ground arith
number_of_last (c ∷ []) zero latest len e = ground arith
number_of_last (c ∷ []) (suc last) latest len e = ground arith
number_of_last (c ∷ d ∷ cs) zero latest len e = absurd (omega arith)
number_of_last (c ∷ d ∷ cs) (suc last) latest len e =
    number_of_last (d ∷ cs) last latest (omega arith) e

add-Extends : Extends add
add-Extends op configs last latest len e =
    inr (_, refl, omega (arith, number_of_last configs last latest len e))

handlers-AreNumbering : AreNumbering handlers
handlers-AreNumbering = record {
  join = add-Extends;
  leave = add-Extends;
  move = add-Extends;
  query = λ op configs. refl;
}

run-IsNumbered_example :
    Finishes (run handlers matched history (start_server 0)) (λ s. IsNumbered s.configs)
run-IsNumbered_example =
    run-IsNumbered handlers matched 0 1 history handlers-AreNumbering history-Increasing
