-- ===== src/Shardkv/Client/Calls.antt =====
-- shardkv/client.go: Get and PutAppend as their callers see them.
use dist_kv_raft.Common.{
  ℕ, suc, ◌+◌, ◌<◌, nat_eq, some, List, [], ◌∷◌, String, Bytes, lookup, Has, ◌⊎◌, inl, inr, ◌≡◌,
  sym, ◌∙◌, arith, Option-cases,
}
use dist_kv_raft.Shardctrler.Types.{Config, n_shards}
use dist_kv_raft.Shardkv.Types.{ok, err_no_key, GetArgs, GetReply, PutAppendArgs, PutAppendReply}
use dist_kv_raft.Shardkv.Client.{
  Clerk, Call, key2shard, get, put_append, get_verdict, put_append_verdict,
}
use dist_kv_raft.Shardkv.Client.Loop.{Verdict, returns, goes_on, gid_of, verdict_of}
use dist_kv_raft.Shardkv.Client.Returns.{IsServing, IsOwnedFrom, before_returns}
use dist_kv_raft.Shardkv.Client.Answers.{IsAnsweredBy, loop_answered}

-- Every key has one of the shards, so the clerk's index into `Shards` is in range.
pub key2shard_lt : (key : Bytes) → key2shard key < n_shards
unfolding key2shard
key2shard_lt [] = omega arith
key2shard_lt (c ∷ cs) = omega arith

abbrev pub get_args : ℕ → Clerk → Bytes → GetArgs
get_args now ck key = record { key = key; client_id = ck.client_id; time_stamp = now }

abbrev pub put_append_args : ℕ → Clerk → Bytes → Bytes → String → PutAppendArgs
put_append_args now ck key value op = record {
  key = key;
  value = value;
  op = op;
  client_id = ck.client_id;
  time_stamp = now;
}

-- A reply that a server gave to these arguments.
pub record IsReplied {A R : Type 0} (call : Call A R) (args : A) (latest : ℕ → Config) (shard : ℕ)
    (good : R → Type 0) : Type 0 where
  pub query : ℕ
  pub servers : List String
  pub attempt : ℕ
  pub srv : String
  pub reply : R
  pub is_owned : lookup (gid_of shard (latest query)) (latest query).groups ≡ some servers
  pub is_server : Has srv servers
  pub is_reply : call attempt srv args ≡ some reply
  pub is_good : good reply

get_reply :
    (r : GetReply) (value : Bytes)
    → get_verdict r ≡ returns value
    → (r.value ≡ value) × ((r.err ≡ ok) ⊎ (r.err ≡ err_no_key))
unfolding get_verdict
get_reply r value h = ground (arith, h)

put_append_reply :
    (r out : PutAppendReply) → put_append_verdict r ≡ returns out → (r ≡ out) × (r.err ≡ ok)
unfolding put_append_verdict
put_append_reply r out h = ground (arith, h)

goes_on_returns : {B : Type 0} (b : B) → ¬ (goes_on ≡ returns b)
goes_on_returns b h = ground (arith, h)

IsReplied-map :
    {A R : Type 0} {P Q : R → Type 0} (call : Call A R) (args : A) (latest : ℕ → Config) (shard : ℕ)
    → ((r : R) → P r → Q r)
    → IsReplied call args latest shard P
    → IsReplied call args latest shard Q
IsReplied-map call args latest shard f p = record {
  query = p.query;
  servers = p.servers;
  attempt = p.attempt;
  srv = p.srv;
  reply = p.reply;
  is_owned = p.is_owned;
  is_server = p.is_server;
  is_reply = p.is_reply;
  is_good = f p.reply p.is_good;
}

replied :
    {A B R : Type 0} (call : Call A R) (verdict : R → Verdict B) (latest : ℕ → Config) (shard : ℕ)
    (args : A) (b : B)
    → IsAnsweredBy call verdict latest shard args b
    → IsReplied call args latest shard (λ r. verdict r ≡ returns b)
unfolding verdict_of
replied call verdict latest shard args b a = elim (Option-cases (call a.attempt a.srv args)) [
  | inl e ↦ absurd (goes_on_returns b (sym (rw (verdict_of, e)) ∙ a.is_answer))
  | inr (r, e) ↦ record {
    query = a.query;
    servers = a.servers;
    attempt = a.attempt;
    srv = a.srv;
    reply = r;
    is_owned = a.is_owned;
    is_server = a.is_server;
    is_reply = e;
    is_good = sym (rw (verdict_of, e)) ∙ a.is_answer;
  }
]

-- Let the controller, from query K on, give the shard of the key to one group, whose servers from
-- attempt N on never answer that they are the wrong group, and one of which answers. Then Get
-- returns within K + N + 1 rounds, and what it returns is the value in a reply OK or ErrNoKey of a
-- server of the group that had the shard in a configuration from the controller.
pub get_returns :
    (call : Call GetArgs GetReply) (latest : ℕ → Config) (now : ℕ) (ck : Clerk) (key : Bytes)
    (servers : List String) (K N : ℕ) (srv : String)
    → IsOwnedFrom call get_verdict latest (key2shard key) K servers
    → IsServing call get_verdict servers (get_args now ck key) N srv
    → (value : Bytes) × ((get call latest now (K + suc N) ck key).result ≡ some value)
      × IsReplied call
          (get_args now ck key)
          latest
          (key2shard key)
          (λ r. (r.value ≡ value) × ((r.err ≡ ok) ⊎ (r.err ≡ err_no_key)))
unfolding get
get_returns call latest now ck key servers K N srv owned serving =
    let shard = key2shard key in
    let args = get_args now ck key in
    elim (Option-cases (get call latest now (K + suc N) ck key).result) [
      | inl e ↦ absurd (
          before_returns call get_verdict latest shard args servers K N srv K 0 0 owned serving
            (omega arith) e)
      | inr (value, e) ↦
          let by = loop_answered call get_verdict latest shard args (K + suc N) 0 0 value e in
          (
            value,
            e,
            IsReplied-map call args latest shard (λ r. get_reply r value)
                (replied call get_verdict latest shard args value by),
          )
    ]

-- Let the controller, from query K on, give the shard of the key to one group, whose servers from
-- attempt N on never answer that they are the wrong group, and one of which then always answers OK.
-- Then PutAppend returns within K + N + 1 rounds, and a server of the group that had the shard in a
-- configuration from the controller has replied OK to the operation.
pub put_append_returns :
    (call : Call PutAppendArgs PutAppendReply) (latest : ℕ → Config) (now : ℕ) (ck : Clerk)
    (key value : Bytes) (op : String) (servers : List String) (K N : ℕ) (srv : String)
    → IsOwnedFrom call put_append_verdict latest (key2shard key) K servers
    → IsServing call put_append_verdict servers (put_append_args now ck key value op) N srv
    → (reply : PutAppendReply) × ((put_append call latest now (K + suc N) ck key value op).result
        ≡ some reply)
      × IsReplied call
          (put_append_args now ck key value op)
          latest
          (key2shard key)
          (λ r. (r ≡ reply) × (r.err ≡ ok))
unfolding put_append
put_append_returns call latest now ck key value op servers K N srv owned serving =
    let shard = key2shard key in
    let args = put_append_args now ck key value op in
    elim (Option-cases (put_append call latest now (K + suc N) ck key value op).result) [
      | inl e ↦ absurd (
          before_returns call put_append_verdict latest shard args servers K N srv K 0 0 owned
            serving (omega arith) e)
      | inr (reply, e) ↦
          let by =
            loop_answered call put_append_verdict latest shard args (K + suc N) 0 0 reply e in
          (
            reply,
            e,
            IsReplied-map call args latest shard (λ r. put_append_reply r reply)
                (replied call put_append_verdict latest shard args reply by),
          )
    ]
