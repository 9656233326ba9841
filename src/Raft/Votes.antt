-- ===== src/Raft/Votes.antt =====
-- README.md, "Leader Election": the body of `RequestVote` of raft/raft.go as it lists it. The
-- replies, and the signals between the goroutines, are left out; `is_log_up_to_date` stands for
-- `isLogUpToDate`, whose body is not in the repository.
use dist_kv_raft.Common.{
  ℕ, ltb, ◌==◌, nat_eq, if◌then◌else◌, Bool, true, false, ◌&&◌, Option, none, some, List, [], ◌∷◌,
  All, ◌≡◌, refl, ap, sym, ◌∙◌, subst, arith, Bool-cases, inl, inr, ◌⊎◌, Option-cases, some_inj,
  none≢some,
}
use dist_kv_raft.Raft.Types.{RequestVoteArgs}
use dist_kv_raft.Raft.Peer.{Raft}

abbrev pub may_vote : Option ℕ → ℕ → Bool
may_vote none candidate = true
may_vote (some voted_for) candidate = voted_for == candidate

module _ {C : Type 0} (is_log_up_to_date : Raft C → ℕ → ℕ → Bool) where
  -- Whether the vote is granted, and the peer after that.
  unfoldable pub request_vote : RequestVoteArgs → Raft C → Bool × Raft C
  request_vote args rf =
      if ltb args.term rf.current_term
      then (false, rf)
      else if may_vote rf.voted_for args.candidate_id
          && is_log_up_to_date rf args.last_log_index args.last_log_term
      then (true, record rf { voted_for = some args.candidate_id })
      else (false, rf)

  -- The candidates that get a vote, one request after the other.
  unfoldable pub granted : List RequestVoteArgs → Raft C → List ℕ
  unfolding request_vote
  granted [] rf = []
  granted (args ∷ rest) rf =
      let after = request_vote args rf in
      let others = granted rest after.1 in if after.0 then args.candidate_id ∷ others else others

  vote_cases :
      (args : RequestVoteArgs) (rf : Raft C)
      → (request_vote args rf ≡ (false, rf))
        ⊎ ((may_vote rf.voted_for args.candidate_id ≡ true)
            × (request_vote args rf ≡ (true, record rf { voted_for = some args.candidate_id })))
  unfolding request_vote
  vote_cases args rf = elim (Bool-cases (ltb args.term rf.current_term)) [
    | inl old ↦ inl (simp (request_vote, old))
    | inr fresh ↦ elim (Bool-cases (may_vote rf.voted_for args.candidate_id)) [
      | inr other ↦ inl (simp (request_vote, fresh, other))
      | inl may ↦ elim (Bool-cases (is_log_up_to_date rf args.last_log_index args.last_log_term)) [
        | inr behind ↦ inl (simp (request_vote, fresh, may, behind))
        | inl ahead ↦ inr (may, simp (request_vote, fresh, may, ahead))
      ]
    ]
  ]

  granted_no :
      (args : RequestVoteArgs) (rest : List RequestVoteArgs) (rf : Raft C)
      → request_vote args rf ≡ (false, rf)
      → granted (args ∷ rest) rf ≡ granted rest rf
  unfolding granted
  granted_no args rest rf e =
      ap
        (λ after.
          if after.0 then args.candidate_id ∷ granted rest after.1 else granted rest after.1)
        e

  granted_yes :
      (args : RequestVoteArgs) (rest : List RequestVoteArgs) (rf rf' : Raft C)
      → request_vote args rf ≡ (true, rf')
      → granted (args ∷ rest) rf ≡ args.candidate_id ∷ granted rest rf'
  unfolding granted
  granted_yes args rest rf rf' e =
      ap
        (λ after.
          if after.0 then args.candidate_id ∷ granted rest after.1 else granted rest after.1)
        e

  same_vote : (o : Option ℕ) (c d : ℕ) → o ≡ some c → may_vote o d ≡ true → d ≡ c
  same_vote o c d v may = ground (arith, v, may)

  granted_voted :
      (c : ℕ) (reqs : List RequestVoteArgs) (rf : Raft C)
      → rf.voted_for ≡ some c
      → All (λ g. g ≡ c) (granted reqs rf)
  unfolding granted
  granted_voted c [] rf v = tt
  granted_voted c (args ∷ rest) rf v = elim (vote_cases args rf) [
    | inl denied ↦
        subst (All (λ g. g ≡ c)) (sym (granted_no args rest rf denied)) (granted_voted c rest rf v)
    | inr (may, given) ↦
        let same = same_vote rf.voted_for c args.candidate_id v may in
        subst (All (λ g. g ≡ c)) (sym (granted_yes args rest rf _ given)) (
          same,
          granted_voted c rest (record rf { voted_for = some args.candidate_id }) (ap some same),
        )
  ]

  first_vote :
      (reqs : List RequestVoteArgs) (rf : Raft C) → (c : ℕ) × All (λ g. g ≡ c) (granted reqs rf)
  unfolding granted
  first_vote [] rf = (0, tt)
  first_vote (args ∷ rest) rf = elim (vote_cases args rf) [
    | inl denied ↦
        let (c, all) = first_vote rest rf in
        (c, subst (All (λ g. g ≡ c)) (sym (granted_no args rest rf denied)) all)
    | inr (may, given) ↦
        let c = args.candidate_id in
        let after : Raft C = record rf { voted_for = some c } in
        (
          c,
          subst (All (λ g. g ≡ c)) (sym (granted_yes args rest rf after given))
              (refl, granted_voted c rest after refl),
        )
  ]

  -- By the listing of RequestVote, which never steps down, all the votes that a peer grants go to one
  -- candidate, whatever the terms of the requests are, and to the one that it had voted for before, if
  -- there was one; so by the listing a peer that has voted never votes for another candidate in a later
  -- term.
  pub one_candidate_gets_votes :
      (reqs : List RequestVoteArgs) (rf : Raft C)
      → (c : ℕ) × All (λ g. g ≡ c) (granted reqs rf) × ((v : ℕ) → rf.voted_for ≡ some v → c ≡ v)
  unfolding granted
  one_candidate_gets_votes reqs rf = elim (Option-cases rf.voted_for) [
    | inr (c, v) ↦ (c, granted_voted c reqs rf v, λ w e. some_inj (sym v ∙ e))
    | inl none_yet ↦
        let (c, all) = first_vote reqs rf in (c, all, λ w e. absurd (none≢some (sym none_yet ∙ e)))
  ]
