-- ===== src/Shardctrler/Client.antt =====
-- shardctrler/client.go: the clerk of the controllers. What a server answers, and the clock, are
-- functions of the number of the attempt; a loop that goes on for ever is given a number of rounds.
mod Loop
mod Sent
mod Returns
mod Retries
mod Examples
use dist_kv_raft.Common.{
  ℕ, ℤ, ◌%◌, ◌^◌, if◌then◌else◌, Option, none, some, List, String, Dict, Bool, true, false,
}
use dist_kv_raft.Shardctrler.Types.{
  Config, JoinArgs, LeaveArgs, MoveArgs, QueryArgs, Ack, QueryReply,
}
use dist_kv_raft.Shardctrler.Client.Loop.{Tried, try_rounds}

pub record Clerk : Type 0 where
  pub servers : List String
  pub client_id : ℕ

-- `x` stands for the number that crypto/rand draws.
unfoldable pub nrand : ℕ → ℕ
nrand x = x % 2 ^ 62

unfoldable pub make_clerk : List String → ℕ → Clerk
unfolding nrand
make_clerk servers x = record { servers = servers; client_id = nrand x }

-- The test `reply.WrongLeader == false`.
unfoldable pub query_answer : QueryReply → Option Config
query_answer r = if r.wrong_leader then none else some r.config

unfoldable pub ack_answer : Ack → Option Ack
ack_answer r = if r.wrong_leader then none else some r

-- The way the servers answer: `none` where `Call` returns false.
abbrev pub Call : Type 0 → Type 0 → Type 0
Call A R = ℕ → String → A → Option R

unfoldable pub query : Call QueryArgs QueryReply → (ℕ → ℕ) → ℕ → Clerk → ℤ → Tried QueryArgs Config
query call now rounds ck num =
    let args : QueryArgs = record { num = num; client_id = ck.client_id; time_stamp = now 0 } in
    try_rounds call query_answer (λ n args. args) rounds ck.servers 0 args

unfoldable pub join_stamp : (ℕ → ℕ) → ℕ → JoinArgs → JoinArgs
join_stamp now n args = record args { time_stamp = now n }

-- The time stamp that `JoinArgs{}` starts with is Go's zero time.
unfoldable pub join :
    Call JoinArgs Ack → (ℕ → ℕ) → ℕ → Clerk → Dict ℕ (List String) → Tried JoinArgs Ack
unfolding join_stamp
join call now rounds ck servers =
    let args : JoinArgs = record { servers = servers; client_id = ck.client_id; time_stamp = 0 } in
    try_rounds call ack_answer (join_stamp now) rounds ck.servers 0 args

unfoldable pub leave_stamp : (ℕ → ℕ) → ℕ → LeaveArgs → LeaveArgs
leave_stamp now n args = record args { time_stamp = now n }

unfoldable pub leave : Call LeaveArgs Ack → (ℕ → ℕ) → ℕ → Clerk → List ℕ → Tried LeaveArgs Ack
leave call now rounds ck gids =
    let args : LeaveArgs = record { gids = gids; client_id = ck.client_id; time_stamp = 0 } in
    try_rounds call ack_answer (leave_stamp now) rounds ck.servers 0 args

unfoldable pub move : Call MoveArgs Ack → (ℕ → ℕ) → ℕ → Clerk → ℕ → ℕ → Tried MoveArgs Ack
move call now rounds ck shard gid =
    let args : MoveArgs = record {
      shard = shard;
      gid = gid;
      client_id = ck.client_id;
      time_stamp = now 0;
    } in
    try_rounds call ack_answer (λ n args. args) rounds ck.servers 0 args
