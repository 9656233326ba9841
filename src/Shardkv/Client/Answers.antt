-- ===== src/Shardkv/Client/Answers.antt =====
-- shardkv/client.go: whose answer the loop of Get and PutAppend returns.
use dist_kv_raft.Common.{
  ℕ, zero, suc, nat_eq, Option, none, some, List, [], ◌∷◌, String, lookup, Has, inl, inr, ◌≡◌, refl,
  sym, ◌∙◌, ap, none≢some, some_inj, Option-cases,
}
use dist_kv_raft.Shardctrler.Types.{Config}
use dist_kv_raft.Shardkv.Client.Loop.{
  Verdict, returns, gid_of, verdict_of, try_group, try_shard, try_rounds,
}
use dist_kv_raft.Shardkv.Client.Returns.{
  Verdict-cases, group_returned, group_stopped, group_went_on, shard_owned, loop_returned,
  loop_went_on,
}

module _ {A B R : Type 0} (call : ℕ → String → A → Option R) (verdict : R → Verdict B) where
  -- A server of the group that had the shard, by a configuration that the clerk got from the
  -- controller for this call, gave the answer.
  pub record IsAnsweredBy (latest : ℕ → Config) (shard : ℕ) (args : A) (b : B) : Type 0 where
    pub query : ℕ
    pub servers : List String
    pub attempt : ℕ
    pub srv : String
    pub is_owned : lookup (gid_of shard (latest query)) (latest query).groups ≡ some servers
    pub is_server : Has srv servers
    pub is_answer : verdict_of call verdict attempt srv args ≡ returns b

  group_answered :
      (servers : List String) (n : ℕ) (args : A) (b : B)
      → (try_group call verdict servers n args).0 ≡ some b
      → (m : ℕ) × (srv : String) × Has srv servers
        × (verdict_of call verdict m srv args ≡ returns b)
  unfolding try_group
  group_answered [] n args b h = absurd (none≢some h)
  group_answered (s ∷ ss) n args b h = elim (Verdict-cases (verdict_of call verdict n s args)) [
    | inl (c, e) ↦
        let same = some_inj (sym (group_returned call verdict s ss n args c e) ∙ h) in
        (n, s, inl refl, e ∙ ap returns same)
    | inr (inl e) ↦ absurd (none≢some (sym (group_stopped call verdict s ss n args e) ∙ h))
    | inr (inr e) ↦
        let (m, srv, has, v) =
          group_answered ss (suc n) args b (sym (group_went_on call verdict s ss n args e) ∙ h) in
        (m, srv, inr has, v)
  ]

  shard_unowned :
      (config : Config) (shard n : ℕ) (args : A)
      → lookup (gid_of shard config) config.groups ≡ none
      → try_shard call verdict config shard n args ≡ (none, [])
  unfolding try_shard
  shard_unowned config shard n args e = rw (try_shard, e)

  shard_answered :
      (latest : ℕ → Config) (k shard n : ℕ) (args : A) (b : B)
      → (try_shard call verdict (latest k) shard n args).0 ≡ some b
      → IsAnsweredBy latest shard args b
  unfolding try_shard
  shard_answered latest k shard n args b h =
      elim (Option-cases (lookup (gid_of shard (latest k)) (latest k).groups)) [
        | inl e ↦
            absurd (none≢some (sym (ap (λ t. t.0) (shard_unowned (latest k) shard n args e)) ∙ h))
        | inr (servers, e) ↦
            let found =
              sym (ap (λ t. t.0) (shard_owned call verdict (latest k) shard servers n args e))
              ∙ h in
            let (m, srv, has, v) = group_answered servers n args b found in
            record {
              query = k;
              servers = servers;
              attempt = m;
              srv = srv;
              is_owned = e;
              is_server = has;
              is_answer = v;
            }
      ]

  pub loop_answered :
      (latest : ℕ → Config) (shard : ℕ) (args : A) (rounds k n : ℕ) (b : B)
      → (try_rounds call verdict latest shard args rounds k n).result ≡ some b
      → IsAnsweredBy latest shard args b
  unfolding try_rounds
  loop_answered latest shard args zero k n b h = absurd (none≢some h)
  loop_answered latest shard args (suc rounds) k n b h =
      elim (Option-cases (try_shard call verdict (latest k) shard n args).0) [
        | inl e ↦
            loop_answered latest shard args rounds (suc k) _ b
              (sym (loop_went_on call verdict latest shard args rounds k n e) ∙ h)
        | inr (c, e) ↦
            shard_answered latest k shard n args b
              (e ∙ sym (loop_returned call verdict latest shard args rounds k n c e) ∙ h)
      ]
