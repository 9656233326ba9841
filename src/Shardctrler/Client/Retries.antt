-- ===== src/Shardctrler/Client/Retries.antt =====
-- shardctrler/client.go against shardctrler/server.go: what the filter of the server makes of the
-- attempts of one call.
use dist_kv_raft.Common.{
  ℕ, suc, ◌<◌, nat_eq, Bool, true, false, List, [], ◌∷◌, String, Dict, ◌≡◌, refl, sym, ◌∙◌, ap,
  subst, map, All, take, arith,
}
use dist_kv_raft.Shardctrler.Types.{JoinArgs, MoveArgs, Ack, Op}
use dist_kv_raft.Shardctrler.Server.{Handlers, Event, run, start_server, first_config}
use dist_kv_raft.Shardctrler.Server.Dedup.{newer, accepted, replay}
use dist_kv_raft.Shardctrler.Server.Run.{ops_of, Increasing, Finishes}
use dist_kv_raft.Shardctrler.Server.History.{configs-run}
use dist_kv_raft.Shardctrler.Client.{Clerk, Call, join, join_stamp, move, ack_answer}
use dist_kv_raft.Shardctrler.Client.Sent.{AllFrom, loop-IsStamped}

-- The operations that the RPC handlers make of the calls.
abbrev pub ops_sent : {A : Type 0} → (A → Op) → List (String × A) → List Op
ops_sent op_of sent = map (λ x. op_of x.1) sent

-- The time goes on between two attempts.
abbrev pub IsClock : (ℕ → ℕ) → Type 0
IsClock now = (n : ℕ) → now n < now (suc n)

newer_rising :
    (op : Op) (seen : List Op) → All (λ s. s.time_stamp < op.time_stamp) seen → newer op seen ≡ true
newer_rising op [] h = refl
newer_rising op (s ∷ seen) h = ground (arith, newer_rising op seen h.1, h.0)

All-earlier :
    (a b : ℕ) (seen : List Op)
    → a < b
    → All (λ s. s.time_stamp < a) seen
    → All (λ s. s.time_stamp < b) seen
All-earlier a b [] lt h = tt
All-earlier a b (s ∷ seen) lt h = (omega (arith, h.0), All-earlier a b seen lt h.1)

accepted_rising :
    {A : Type 0} (op_of : A → Op) (now : ℕ → ℕ) (n : ℕ) (sent : List (String × A)) (seen : List Op)
    → IsClock now
    → All (λ s. s.time_stamp < now n) seen
    → AllFrom (λ i x. (op_of x.1).time_stamp ≡ now i) n sent
    → accepted seen (ops_sent op_of sent) ≡ ops_sent op_of sent
accepted_rising op_of now n [] seen clock old h = refl
accepted_rising op_of now n (x ∷ xs) seen clock old h =
    let op = op_of x.1 in
    let passes =
      newer_rising op seen (subst (λ t. All (λ s. s.time_stamp < t) seen) (sym h.0) old) in
    let rest =
      accepted_rising op_of now (suc n) xs (op ∷ seen) clock
        (
          subst (λ t. t < now (suc n)) (sym h.0) (clock n),
          All-earlier (now n) (now (suc n)) seen (clock n) old,
        )
        h.1 in
    ground (arith, passes, rest)

still_old : (o op : Op) (seen : List Op) → newer o seen ≡ false → newer o (op ∷ seen) ≡ false
still_old o op seen e = ground (arith, e)

same_stamp :
    (o op : Op)
    → o.client_id ≡ op.client_id
    → o.time_stamp ≡ op.time_stamp
    → newer o (op ∷ []) ≡ false
same_stamp o op e f = ground (arith, e, f)

-- `seen` has a command of the client at least as late.
accepted_none :
    (c t : ℕ) (ops seen : List Op)
    → ((op : Op) → op.client_id ≡ c → op.time_stamp ≡ t → newer op seen ≡ false)
    → All (λ op. (op.client_id ≡ c) × (op.time_stamp ≡ t)) ops
    → accepted seen ops ≡ []
accepted_none c t [] seen h k = refl
accepted_none c t (op ∷ ops) seen h k =
    let old = h op k.0.0 k.0.1 in
    let rest = accepted_none c t ops (op ∷ seen) (λ o e f. still_old o op seen (h o e f)) k.1 in
    ground (arith, old, rest)

accepted_same :
    (c t : ℕ) (ops : List Op)
    → All (λ op. (op.client_id ≡ c) × (op.time_stamp ≡ t)) ops
    → accepted [] ops ≡ take 1 ops
accepted_same c t [] h = refl
accepted_same c t (op ∷ ops) h =
    ap (◌∷◌ op) (
      accepted_none c t ops (op ∷ []) (λ o e f. same_stamp o op (e ∙ sym h.0.0) (f ∙ sym h.0.1))
        h.1)

moves_alike :
    (op_of : MoveArgs → Op) (c t n : ℕ) (sent : List (String × MoveArgs))
    → AllFrom (λ i x. ((op_of x.1).client_id ≡ c) × ((op_of x.1).time_stamp ≡ t)) n sent
    → All (λ op. (op.client_id ≡ c) × (op.time_stamp ≡ t)) (ops_sent op_of sent)
moves_alike op_of c t n [] h = tt
moves_alike op_of c t n (x ∷ xs) h = (h.0, moves_alike op_of c t (suc n) xs h.1)

module _ (h : Handlers) (m : Op → Op → Bool) (me b : ℕ) (es : List Event) where
  replays :
      (ops kept : List Op)
      → Increasing b es
      → ops_of es ≡ ops
      → accepted [] ops ≡ kept
      → Finishes (run h m es (start_server me)) (λ s. s.configs ≡ replay h kept (first_config ∷ []))
  replays ops kept i e a =
      subst
        (λ k.
          Finishes (run h m es (start_server me)) (λ s. s.configs ≡ replay h k (first_config ∷ [])))
        (ap (accepted []) e ∙ a) (configs-run h m me b es i)

  -- Let the clock go on between two attempts, the RPC handler keep the time stamp, and Raft deliver
  -- commands at rising indices. When the log of a fresh controller holds exactly the attempts of
  -- one Join, in order, its handler runs once for each of them: the filter takes none for a repeat.
  pub join_retries_all_run :
      (call : Call JoinArgs Ack) (now : ℕ → ℕ) (rounds : ℕ) (ck : Clerk)
      (servers : Dict ℕ (List String)) (op_of : JoinArgs → Op)
      → IsClock now
      → ((a : JoinArgs) → (op_of a).time_stamp ≡ a.time_stamp)
      → Increasing b es
      → ops_of es ≡ ops_sent op_of (join call now rounds ck servers).sent
      → Finishes (run h m es (start_server me)) (λ s.
        s.configs
        ≡ replay h (ops_sent op_of (join call now rounds ck servers).sent) (first_config ∷ []))
  unfolding join join_stamp
  join_retries_all_run call now rounds ck servers op_of clock keeps i e =
      let stamped =
        loop-IsStamped call ack_answer (join_stamp now) (λ a. Unit)
          (λ i a. (op_of a).time_stamp ≡ now i) (λ n a q. (tt, keeps (join_stamp now n a))) rounds
          ck.servers 0 (record { servers = servers; client_id = ck.client_id; time_stamp = 0 })
          tt in
      replays (ops_sent op_of (join call now rounds ck servers).sent) _ i e
        (accepted_rising op_of now 0 _ [] clock tt stamped.0)

  -- Let the RPC handler keep the client and the time stamp, and Raft deliver commands at rising
  -- indices. When the log of a fresh controller holds exactly the attempts of one Move, in order,
  -- its handler runs for the first of them only.
  pub move_retries_run_once :
      (call : Call MoveArgs Ack) (now : ℕ → ℕ) (rounds : ℕ) (ck : Clerk) (shard gid : ℕ)
      (op_of : MoveArgs → Op)
      → ((a : MoveArgs)
          → ((op_of a).client_id ≡ a.client_id) × ((op_of a).time_stamp ≡ a.time_stamp))
      → Increasing b es
      → ops_of es ≡ ops_sent op_of (move call now rounds ck shard gid).sent
      → Finishes (run h m es (start_server me)) (λ s.
        s.configs
        ≡ replay h
            (take 1 (ops_sent op_of (move call now rounds ck shard gid).sent))
            (first_config ∷ []))
  unfolding move
  move_retries_run_once call now rounds ck shard gid op_of keeps i e =
      let args : MoveArgs = record {
        shard = shard;
        gid = gid;
        client_id = ck.client_id;
        time_stamp = now 0;
      } in
      let stamped =
        loop-IsStamped call ack_answer (λ n a. a) (λ a. a ≡ args)
          (λ i a. ((op_of a).client_id ≡ ck.client_id) × ((op_of a).time_stamp ≡ now 0))
          (λ n a q.
            (q, ((keeps a).0 ∙ ap (λ a. a.client_id) q, (keeps a).1 ∙ ap (λ a. a.time_stamp) q)))
          rounds ck.servers 0 args refl in
      replays (ops_sent op_of (move call now rounds ck shard gid).sent) _ i e (
        accepted_same ck.client_id (now 0) _ (moves_alike op_of ck.client_id (now 0) 0 _ stamped.0))
