-- ===== src/Shardkv/Client.antt =====
-- shardkv/client.go: the clerk of the key/value service. What a server answers is a function of the
-- number of the attempt, and `latest k` is what the k-th `Query(-1)` of the call gives.
mod Loop
mod Returns
mod Answers
mod Calls
mod Examples
use dist_kv_raft.Common.{ℕ, ◌%◌, ◌^◌, Option, none, some, List, [], ◌∷◌, String, Bytes}
use dist_kv_raft.Shardctrler.Types.{Config, n_shards}
use dist_kv_raft.Shardkv.Types.{
  Err, ok, err_no_key, err_wrong_group, GetArgs, GetReply, PutAppendArgs, PutAppendReply,
}
use dist_kv_raft.Shardkv.Client.Loop.{Verdict, returns, stops, goes_on, Tried, try_rounds}

unfoldable pub key2shard : Bytes → ℕ
key2shard [] = 0 % n_shards
key2shard (c ∷ cs) = c % n_shards

-- The clerk `sm` is known by its servers. `config` is an argument of the loop, and `make_end`, which
-- gives the end of a name, is left out.
pub record Clerk : Type 0 where
  pub ctrlers : List String
  pub client_id : ℕ

-- `x` stands for the number that crypto/rand draws.
unfoldable pub nrand : ℕ → ℕ
nrand x = x % 2 ^ 62

unfoldable pub make_clerk : List String → ℕ → Clerk
unfolding nrand
make_clerk ctrlers x = record { ctrlers = ctrlers; client_id = nrand x }

unfoldable pub get_verdict : GetReply → Verdict Bytes
get_verdict reply = elim reply.err [
  | ok ↦ returns reply.value
  | err_no_key ↦ returns reply.value
  | err_wrong_group ↦ stops
  | _ ↦ goes_on
]

unfoldable pub put_append_verdict : PutAppendReply → Verdict PutAppendReply
put_append_verdict reply = elim reply.err [
  | ok ↦ returns reply
  | err_wrong_group ↦ stops
  | _ ↦ goes_on
]

abbrev pub Call : Type 0 → Type 0 → Type 0
Call A R = ℕ → String → A → Option R

unfoldable pub get :
    Call GetArgs GetReply → (ℕ → Config) → ℕ → ℕ → Clerk → Bytes → Tried GetArgs Bytes
unfolding key2shard get_verdict
get call latest now rounds ck key =
    let args : GetArgs = record { key = key; client_id = ck.client_id; time_stamp = now } in
    try_rounds call get_verdict latest (key2shard key) args rounds 0 0

unfoldable pub put_append :
    Call PutAppendArgs PutAppendReply
    → (ℕ → Config)
    → ℕ
    → ℕ
    → Clerk
    → Bytes
    → Bytes
    → String
    → Tried PutAppendArgs PutAppendReply
unfolding key2shard put_append_verdict
put_append call latest now rounds ck key value op =
    let args : PutAppendArgs = record {
      key = key;
      value = value;
      op = op;
      client_id = ck.client_id;
      time_stamp = now;
    } in
    try_rounds call put_append_verdict latest (key2shard key) args rounds 0 0

unfoldable pub put :
    Call PutAppendArgs PutAppendReply
    → (ℕ → Config)
    → ℕ
    → ℕ
    → Clerk
    → Bytes
    → Bytes
    → Tried PutAppendArgs PutAppendReply
unfolding put_append
put call latest now rounds ck key value = put_append call latest now rounds ck key value "Put"

unfoldable pub append :
    Call PutAppendArgs PutAppendReply
    → (ℕ → Config)
    → ℕ
    → ℕ
    → Clerk
    → Bytes
    → Bytes
    → Tried PutAppendArgs PutAppendReply
unfolding put_append
append call latest now rounds ck key value = put_append call latest now rounds ck key value "Append"
