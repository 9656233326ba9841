-- ===== src/Shardctrler/Client/Returns.antt =====
-- shardctrler/client.go: when a call of the clerk returns, and what Query then gives.
use dist_kv_raft.Common.{
  ℕ, ℤ, suc, ◌≤◌, false, some, String, Has, ◌≡◌, sym, ◌∙◌, Option-cases, arith, inl, inr, none≢some,
}
use dist_kv_raft.Shardctrler.Types.{Config, QueryArgs, QueryReply}
use dist_kv_raft.Shardctrler.Client.{Clerk, Call, query, query_answer}
use dist_kv_raft.Shardctrler.Client.Loop.{reply_of, IsUpFrom, loop_returns, loop_answered}

-- The server answers as the leader, from attempt N on, whatever it is asked.
abbrev pub IsLeaderFrom : Call QueryArgs QueryReply → ℕ → String → Type 0
IsLeaderFrom call N srv =
    (n : ℕ) (args : QueryArgs)
    → N ≤ n
    → (r : QueryReply) × (call n srv args ≡ some r) × (r.wrong_leader ≡ false)

-- The configuration is in a reply that one of the clerk's servers gave as the leader.
pub record IsFromLeader (call : Call QueryArgs QueryReply) (ck : Clerk) (config : Config)
    : Type 0 where
  pub attempt : ℕ
  pub srv : String
  pub args : QueryArgs
  pub reply : QueryReply
  pub is_server : Has srv ck.servers
  pub is_reply : call attempt srv args ≡ some reply
  pub is_leader : reply.wrong_leader ≡ false
  pub is_config : reply.config ≡ config

reply_of-leader :
    (call : Call QueryArgs QueryReply) (n : ℕ) (srv : String) (args : QueryArgs) (r : QueryReply)
    → call n srv args ≡ some r
    → r.wrong_leader ≡ false
    → reply_of call query_answer (λ n args. args) n srv args ≡ some r.config
unfolding reply_of query_answer
reply_of-leader call n srv args r e l = ground (arith, e, l)

from_answer :
    (r : QueryReply) (config : Config)
    → query_answer r ≡ some config
    → (r.wrong_leader ≡ false) × (r.config ≡ config)
unfolding query_answer
from_answer r config h = ground (arith, h)

from_reply :
    (call : Call QueryArgs QueryReply) (n : ℕ) (srv : String) (args : QueryArgs) (config : Config)
    → reply_of call query_answer (λ n args. args) n srv args ≡ some config
    → (r : QueryReply) × (call n srv args ≡ some r) × (r.wrong_leader ≡ false) × (r.config ≡ config)
unfolding reply_of query_answer
from_reply call n srv args config h = elim (Option-cases (call n srv args)) [
  | inl e ↦ absurd (none≢some (sym (rw (reply_of, e)) ∙ h))
  | inr (r, e) ↦
      let leads = from_answer r config (sym (rw (reply_of, e)) ∙ h) in (r, e, leads.0, leads.1)
]

-- If from attempt N on one of the clerk's servers answers as the leader, Query returns within
-- N + 1 rounds; what it returns is the configuration in a reply that one of the clerk's servers
-- gave as the leader.
pub query_returns :
    (call : Call QueryArgs QueryReply) (now : ℕ → ℕ) (ck : Clerk) (num : ℤ) (N : ℕ) (srv : String)
    → IsLeaderFrom call N srv
    → Has srv ck.servers
    → (config : Config) × ((query call now (suc N) ck num).result ≡ some config)
      × IsFromLeader call ck config
unfolding query
query_returns call now ck num N srv up has =
    let args : QueryArgs = record { num = num; client_id = ck.client_id; time_stamp = now 0 } in
    let is_up : IsUpFrom call query_answer (λ n args. args) N srv = λ n a le z.
      let (r, e, l) = up n a le in none≢some (sym z ∙ reply_of-leader call n srv a r e l) in
    elim (Option-cases (query call now (suc N) ck num).result) [
      | inl e ↦ absurd (
          loop_returns call query_answer (λ n args. args) N srv ck.servers N 0 args is_up has
            (omega arith) e)
      | inr (config, e) ↦
          let by =
            loop_answered call query_answer (λ n args. args) (suc N) ck.servers 0 args config e in
          let (r, c, l, k) = from_reply call by.attempt by.srv by.args config by.is_reply in
          (
            config,
            e,
            record {
              attempt = by.attempt;
              srv = by.srv;
              args = by.args;
              reply = r;
              is_server = by.is_server;
              is_reply = c;
              is_leader = l;
              is_config = k;
            },
          )
    ]
