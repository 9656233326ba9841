-- ===== src/Shardkv/Client/Examples.antt =====
-- A clerk whose shard moves from group 1 to group 2 while it tries.
use dist_kv_raft.Common.{
  ℕ, ◌≤◌, ltb, ◌==◌, string_eq, nat_eq, if◌then◌else◌, ◌≡◌, refl, subst, sym, some, [], ◌∷◌, String,
  Bytes, inl, inr, lookup, arith, ◌⊎◌,
}
use dist_kv_raft.Shardctrler.Types.{Config}
use dist_kv_raft.Shardkv.Types.{
  Err, ok, err_no_key, err_wrong_group, err_wrong_leader, GetArgs, GetReply, PutAppendArgs,
  PutAppendReply,
}
use dist_kv_raft.Shardkv.Client.{
  Clerk, Call, key2shard, get, put_append, get_verdict, put_append_verdict,
}
use dist_kv_raft.Shardkv.Client.Loop.{gid_of, try_rounds, try_shard, try_group, verdict_of, stops}
use dist_kv_raft.Shardkv.Client.Returns.{IsServing}
use dist_kv_raft.Shardkv.Client.Calls.{
  get_args, put_append_args, IsReplied, get_returns, put_append_returns,
}

abbrev clerk : Clerk
clerk = record { ctrlers = []; client_id = 7 }

abbrev key : Bytes
key = b'a' ∷ []

abbrev config_of : ℕ → Config
config_of gid = record {
  num = gid;
  shards = gid ∷ gid ∷ gid ∷ gid ∷ gid ∷ gid ∷ gid ∷ gid ∷ gid ∷ gid ∷ [];
  groups = (1, "old" ∷ []) ∷ (2, "slow" ∷ "new" ∷ []) ∷ [];
}

abbrev latest : ℕ → Config
latest k = config_of (if ltb k 1 then 1 else 2)

abbrev err_of : String → Err
err_of srv = if srv == "new" then ok else if srv == "old" then err_wrong_group else err_wrong_leader

abbrev answer_get : Call GetArgs GetReply
answer_get n srv args = some (record { err = err_of srv; value = b'v' ∷ [] })

abbrev answer_put : Call PutAppendArgs PutAppendReply
answer_put n srv args = some (record { err = err_of srv; config = config_of 2 })

key2shard_example : key2shard key ≡ 7
unfolding key2shard
key2shard_example = refl

get_run : (get answer_get latest 5 3 clerk key).result ≡ some (b'v' ∷ [])
unfolding get key2shard try_rounds try_shard try_group verdict_of get_verdict gid_of lookup
get_run = refl

get-IsServing :
    IsServing answer_get get_verdict ("slow" ∷ "new" ∷ []) (get_args 5 clerk key) 0 "new"
unfolding verdict_of get_verdict
get-IsServing = record {
  is_server = inr (inl refl);
  never_stops = λ n s le has. elim has [
    | inl e ↦
        subst (λ s. ¬ (verdict_of answer_get get_verdict n s (get_args 5 clerk key) ≡ stops))
          (sym e) (λ z. ground (arith, z))
    | inr rest ↦ elim rest [
      | inl e ↦
          subst (λ s. ¬ (verdict_of answer_get get_verdict n s (get_args 5 clerk key) ≡ stops))
            (sym e) (λ z. ground (arith, z))
      | inr z ↦ absurd z
    ]
  ];
  answers = λ n le e. ground (arith, e);
}

owned :
    (k : ℕ)
    → 1 ≤ k
    → lookup (gid_of (key2shard key) (latest k)) (latest k).groups ≡ some ("slow" ∷ "new" ∷ [])
unfolding gid_of key2shard lookup
owned k le = ground (arith, le)

get_returns_example :
    (value : Bytes) × ((get answer_get latest 5 2 clerk key).result ≡ some value)
    × IsReplied answer_get
        (get_args 5 clerk key)
        latest
        (key2shard key)
        (λ r. (r.value ≡ value) × ((r.err ≡ ok) ⊎ (r.err ≡ err_no_key)))
get_returns_example =
    get_returns answer_get latest 5 clerk key ("slow" ∷ "new" ∷ []) 1 0 "new" owned get-IsServing

put-IsServing :
    IsServing answer_put put_append_verdict
      ("slow" ∷ "new" ∷ [])
      (put_append_args 5 clerk key [] "Put")
      0
      "new"
unfolding verdict_of put_append_verdict
put-IsServing = record {
  is_server = inr (inl refl);
  never_stops = λ n s le has. elim has [
    | inl e ↦
        subst
          (λ s. ¬ (
            verdict_of answer_put put_append_verdict n s (put_append_args 5 clerk key [] "Put")
            ≡ stops))
          (sym e) (λ z. ground (arith, z))
    | inr rest ↦ elim rest [
      | inl e ↦
          subst
            (λ s. ¬ (
              verdict_of answer_put put_append_verdict n s (put_append_args 5 clerk key [] "Put")
              ≡ stops))
            (sym e) (λ z. ground (arith, z))
      | inr z ↦ absurd z
    ]
  ];
  answers = λ n le e. ground (arith, e);
}

put_append_returns_example :
    (reply : PutAppendReply) × ((put_append answer_put latest 5 2 clerk key [] "Put").result
      ≡ some reply)
    × IsReplied answer_put
        (put_append_args 5 clerk key [] "Put")
        latest
        (key2shard key)
        (λ r. (r ≡ reply) × (r.err ≡ ok))
put_append_returns_example =
    put_append_returns answer_put latest 5 clerk key [] "Put" ("slow" ∷ "new" ∷ []) 1 0 "new" owned
      put-IsServing
