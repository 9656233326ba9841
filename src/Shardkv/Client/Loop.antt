-- ===== src/Shardkv/Client/Loop.antt =====
-- shardkv/client.go: the loop that Get and PutAppend have in common.
use dist_kv_raft.Common.{
  ℕ, zero, suc, ◌+◌, nat_eq, Option, none, some, List, [], ◌∷◌, ◌++◌, String, lookup, get_elem?,
  length,
}
use dist_kv_raft.Shardctrler.Types.{Config}

-- What the body makes of a reply: it returns, leaves the loop over the servers, or goes on.
pub data Verdict (B : Type 0) : Type 0 where
  returns : B → Verdict B
  stops : Verdict B
  goes_on : Verdict B

-- `result` is what the call returned, if it did, and `next` the number of the next attempt;
-- `queries` counts the queries of the controller after the first one.
pub record Tried (A B : Type 0) : Type 0 where
  pub result : Option B
  pub sent : List (String × A)
  pub next : ℕ
  pub queries : ℕ

-- `config.Shards[shard]`, an array of NShards numbers.
unfoldable pub gid_of : ℕ → Config → ℕ
gid_of shard config = elim (get_elem? config.shards shard) [ none ↦ 0 | some gid ↦ gid ]

module _ {A B R : Type 0} (call : ℕ → String → A → Option R) (verdict : R → Verdict B) where
  unfoldable pub verdict_of : ℕ → String → A → Verdict B
  verdict_of n srv args = elim (call n srv args) [ none ↦ goes_on | some reply ↦ verdict reply ]

  -- The loop over the servers of the group: what it returned, and the calls it made.
  unfoldable pub try_group : List String → ℕ → A → Option B × List (String × A)
  unfolding verdict_of
  try_group [] n args = (none, [])
  try_group (srv ∷ srvs) n args =
      let rest = try_group srvs (suc n) args in
      elim (verdict_of n srv args) [
        | returns b ↦ (some b, (srv, args) ∷ [])
        | stops ↦ (none, (srv, args) ∷ [])
        | goes_on ↦ (rest.0, (srv, args) ∷ rest.1)
      ]

  unfoldable pub try_shard : Config → ℕ → ℕ → A → Option B × List (String × A)
  unfolding gid_of
  try_shard config shard n args = elim (lookup (gid_of shard config) config.groups) [
    | none ↦ (none, [])
    | some servers ↦ try_group servers n args
  ]

  -- `k` is the number of the last query, `n` that of the next attempt.
  unfoldable pub try_rounds : (ℕ → Config) → ℕ → A → ℕ → ℕ → ℕ → Tried A B
  try_rounds latest shard args zero k n = record { result = none; sent = []; next = n; queries = k }
  try_rounds latest shard args (suc rounds) k n =
      let round = try_shard (latest k) shard n args in
      let next = n + length round.1 in
      let rest = try_rounds latest shard args rounds (suc k) next in
      elim round.0 [
        | some b ↦ record { result = some b; sent = round.1; next = next; queries = k }
        | none ↦ record rest { sent = round.1 ++ rest.sent }
      ]
