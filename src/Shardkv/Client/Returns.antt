-- ===== src/Shardkv/Client/Returns.antt =====
-- shardkv/client.go: when the loop of Get and PutAppend returns, and whose answer that is.
use dist_kv_raft.Common.{
  ℕ, zero, suc, ◌+◌, ◌≤◌, nat_eq, Option, none, some, List, [], ◌∷◌, String, lookup, length, Has,
  ◌⊎◌, inl, inr, ◌≡◌, refl, sym, ◌∙◌, ap, subst, none≢some, arith, Option-cases,
}
use dist_kv_raft.Shardctrler.Types.{Config}
use dist_kv_raft.Shardkv.Client.Loop.{
  Verdict, returns, stops, goes_on, gid_of, verdict_of, try_group, try_shard, try_rounds,
}

pub Verdict-cases :
    {B : Type 0} (v : Verdict B) → ((b : B) × (v ≡ returns b)) ⊎ ((v ≡ stops) ⊎ (v ≡ goes_on))
Verdict-cases (returns b) = inl (b, refl)
Verdict-cases stops = inr (inl refl)
Verdict-cases goes_on = inr (inr refl)

module _ {A B R : Type 0} (call : ℕ → String → A → Option R) (verdict : R → Verdict B) where
  pub group_returned :
      (s : String) (ss : List String) (n : ℕ) (args : A) (b : B)
      → verdict_of call verdict n s args ≡ returns b
      → (try_group call verdict (s ∷ ss) n args).0 ≡ some b
  unfolding try_group
  group_returned s ss n args b e = rw (try_group, e)

  pub group_stopped :
      (s : String) (ss : List String) (n : ℕ) (args : A)
      → verdict_of call verdict n s args ≡ stops
      → (try_group call verdict (s ∷ ss) n args).0 ≡ none
  unfolding try_group
  group_stopped s ss n args e = rw (try_group, e)

  pub group_went_on :
      (s : String) (ss : List String) (n : ℕ) (args : A)
      → verdict_of call verdict n s args ≡ goes_on
      → (try_group call verdict (s ∷ ss) n args).0 ≡ (try_group call verdict ss (suc n) args).0
  unfolding try_group
  group_went_on s ss n args e = rw (try_group, e)

  -- From attempt `N` on, no server of the group finds that it is the wrong one, and `srv` answers.
  pub record IsServing (servers : List String) (args : A) (N : ℕ) (srv : String) : Type 0 where
    pub is_server : Has srv servers
    pub never_stops :
        (n : ℕ) (s : String) → N ≤ n → Has s servers → ¬ (verdict_of call verdict n s args ≡ stops)
    pub answers : (n : ℕ) → N ≤ n → ¬ (verdict_of call verdict n srv args ≡ goes_on)

  fewer :
      (s : String) (ss : List String) (args : A) (N : ℕ) (srv : String)
      → IsServing (s ∷ ss) args N srv
      → Has srv ss
      → IsServing ss args N srv
  fewer s ss args N srv w h = record {
    is_server = h;
    never_stops = λ n t le k. w.never_stops n t le (inr k);
    answers = w.answers;
  }

  group_returns :
      (servers : List String) (args : A) (N : ℕ) (srv : String) (n : ℕ)
      → IsServing servers args N srv
      → N ≤ n
      → ¬ ((try_group call verdict servers n args).0 ≡ none)
  group_returns [] args N srv n w le = absurd w.is_server
  group_returns (s ∷ ss) args N srv n w le =
      elim (Verdict-cases (verdict_of call verdict n s args)) [
        | inl (b, e) ↦ λ z. none≢some (sym z ∙ group_returned s ss n args b e)
        | inr (inl e) ↦ absurd (w.never_stops n s le (inl refl) e)
        | inr (inr e) ↦ elim w.is_server [
          | inl same ↦ absurd (w.answers n le (ap (λ s. verdict_of call verdict n s args) same ∙ e))
          | inr h ↦ λ z.
              group_returns ss args N srv (suc n) (fewer s ss args N srv w h) (omega arith)
                (sym (group_went_on s ss n args e) ∙ z)
        ]
      ]

  group_calls :
      (servers : List String) (args : A) (srv : String) (n : ℕ)
      → Has srv servers
      → 1 ≤ length (try_group call verdict servers n args).1
  unfolding try_group
  group_calls [] args srv n h = absurd h
  group_calls (s ∷ ss) args srv n h = elim (Verdict-cases (verdict_of call verdict n s args)) [
    | inl (b, e) ↦ rw (try_group, e) (omega arith)
    | inr (inl e) ↦ rw (try_group, e) (omega arith)
    | inr (inr e) ↦ rw (try_group, e) (omega arith)
  ]

  pub shard_owned :
      (config : Config) (shard : ℕ) (servers : List String) (n : ℕ) (args : A)
      → lookup (gid_of shard config) config.groups ≡ some servers
      → try_shard call verdict config shard n args ≡ try_group call verdict servers n args
  unfolding try_shard
  shard_owned config shard servers n args e = rw (try_shard, e)

  pub loop_returned :
      (latest : ℕ → Config) (shard : ℕ) (args : A) (rounds k n : ℕ) (b : B)
      → (try_shard call verdict (latest k) shard n args).0 ≡ some b
      → (try_rounds call verdict latest shard args (suc rounds) k n).result ≡ some b
  unfolding try_rounds
  loop_returned latest shard args rounds k n b e = rw (try_rounds, e)

  pub loop_went_on :
      (latest : ℕ → Config) (shard : ℕ) (args : A) (rounds k n : ℕ)
      → (try_shard call verdict (latest k) shard n args).0 ≡ none
      → (try_rounds call verdict latest shard args (suc rounds) k n).result
        ≡ (try_rounds call verdict latest shard args rounds
            (suc k)
            (n + length (try_shard call verdict (latest k) shard n args).1)).result
  unfolding try_rounds
  loop_went_on latest shard args rounds k n e = rw (try_rounds, e)

  -- From query `K` on, the controller gives the shard to a group with these servers.
  abbrev pub IsOwnedFrom : (ℕ → Config) → ℕ → ℕ → List String → Type 0
  IsOwnedFrom latest shard K servers =
      (k : ℕ) → K ≤ k → lookup (gid_of shard (latest k)) (latest k).groups ≡ some servers

  serving_returns :
      (latest : ℕ → Config) (shard : ℕ) (args : A) (servers : List String) (K N : ℕ) (srv : String)
      (rounds k n : ℕ)
      → IsOwnedFrom latest shard K servers
      → IsServing servers args N srv
      → K ≤ k
      → N ≤ n + rounds
      → ¬ ((try_rounds call verdict latest shard args (suc rounds) k n).result ≡ none)
  serving_returns latest shard args servers K N srv zero k n owned w at le =
      let here = shard_owned (latest k) shard servers n args (owned k at) in
      elim (Option-cases (try_shard call verdict (latest k) shard n args).0) [
        | inr (b, e) ↦ λ z. none≢some (sym z ∙ loop_returned latest shard args 0 k n b e)
        | inl e ↦
            absurd
              (group_returns servers args N srv n w (omega arith) (sym (ap (λ t. t.0) here) ∙ e))
      ]
  serving_returns latest shard args servers K N srv (suc rounds) k n owned w at le =
      let here = shard_owned (latest k) shard servers n args (owned k at) in
      elim (Option-cases (try_shard call verdict (latest k) shard n args).0) [
        | inr (b, e) ↦ λ z. none≢some (sym z ∙ loop_returned latest shard args (suc rounds) k n b e)
        | inl e ↦ λ z.
            let one =
              subst (λ t. 1 ≤ length t.1) (sym here) (group_calls servers args srv n w.is_server) in
            serving_returns latest shard args servers K N srv rounds (suc k) _ owned w (omega arith)
              (omega (arith, one, le)) (sym (loop_went_on latest shard args (suc rounds) k n e) ∙ z)
      ]

  pub before_returns :
      (latest : ℕ → Config) (shard : ℕ) (args : A) (servers : List String) (K N : ℕ) (srv : String)
      (d k n : ℕ)
      → IsOwnedFrom latest shard K servers
      → IsServing servers args N srv
      → K ≤ k + d
      → ¬ ((try_rounds call verdict latest shard args (d + suc N) k n).result ≡ none)
  before_returns latest shard args servers K N srv zero k n owned w at =
      subst (λ r. ¬ ((try_rounds call verdict latest shard args r k n).result ≡ none)) (omega arith)
        (serving_returns latest shard args servers K N srv N k n owned w (omega arith)
          (omega arith))
  before_returns latest shard args servers K N srv (suc d) k n owned w at =
      subst (λ r. ¬ ((try_rounds call verdict latest shard args r k n).result ≡ none)) (omega arith)
        (elim (Option-cases (try_shard call verdict (latest k) shard n args).0) [
          | inr (b, e) ↦
              λ z. none≢some (sym z ∙ loop_returned latest shard args (d + suc N) k n b e)
          | inl e ↦ λ z.
              before_returns latest shard args servers K N srv d (suc k) _ owned w (omega arith)
                (sym (loop_went_on latest shard args (d + suc N) k n e) ∙ z)
        ])
