-- ===== src/Raft/Harness/Counting.antt =====
-- raft/config.go: what `nCommitted` counts.
use dist_kv_raft.Common.{
  ℕ, zero, suc, ◌+◌, Eq, nat_eq, if◌then◌else◌, false, Option, none, some, List, [], ◌∷◌, Dict,
  lookup, ◌≡◌, refl, sym, ap, ◌∙◌, arith, Option-cases, inl, inr, none≢some,
}
use dist_kv_raft.Raft.Harness.{
  Config, Message, make_config, is_some, differs, clashes, count_committed, n_committed, appliers,
}
use dist_kv_raft.Raft.Harness.Agreement.{holds, appliers_ensure_agreement}

module _ {V : Type 0} ⦃go : Eq V⦄ where
  -- The servers that have a command at the index.
  abbrev pub holders : ℕ → List (Dict ℕ V) → ℕ
  holders index [] = 0
  holders index (log ∷ logs) = (if is_some (lookup index log) then 1 else 0) + holders index logs

  -- `c` is the command of every server that has one at the index.
  abbrev pub IsCommand : ℕ → List (Dict ℕ V) → V → Type 0
  IsCommand index logs c = (i : ℕ) (a : V) → holds i index logs ≡ some a → a ≡ c

  no_clash : (n : ℕ) (c : V) → clashes n (some c) c ≡ false
  unfolding clashes differs
  no_clash n c = ground (arith, go.equal_iff c c)

  count_none :
      (index : ℕ) (log : Dict ℕ V) (logs : List (Dict ℕ V)) (n : ℕ) (cmd : Option V)
      → lookup index log ≡ none
      → count_committed index (log ∷ logs) n cmd ≡ count_committed index logs n cmd
  unfolding count_committed
  count_none index log logs n cmd e = rw (count_committed, e)

  count_one :
      (index : ℕ) (log : Dict ℕ V) (logs : List (Dict ℕ V)) (n : ℕ) (cmd : Option V) (a : V)
      → lookup index log ≡ some a
      → clashes n cmd a ≡ false
      → count_committed index (log ∷ logs) n cmd ≡ count_committed index logs (n + 1) (some a)
  unfolding count_committed
  count_one index log logs n cmd a e k = simp (count_committed, e, k)

  count_rest :
      (index : ℕ) (logs : List (Dict ℕ V)) (n : ℕ) (c : V)
      → IsCommand index logs c
      → count_committed index logs n (some c) ≡ some (n + holders index logs, some c)
  unfolding count_committed
  count_rest index [] n c all = ap (λ k. some (k, some c)) (omega arith)
  count_rest index (log ∷ logs) n c all = elim (Option-cases (lookup index log)) [
    | inl e ↦
        count_none index log logs n (some c) e
        ∙ count_rest index logs n c (λ i a h. all (suc i) a h)
        ∙ ap (λ k. some (k, some c)) (ground (arith, e))
    | inr (a, e) ↦
        let same = all zero a e in
        count_one index log logs n (some c) c (e ∙ ap some same) (no_clash n c)
        ∙ count_rest index logs (n + 1) c (λ i b h. all (suc i) b h)
        ∙ ap (λ k. some (k, some c)) (ground (arith, e))
  ]

  elim_first :
      {P : Type 0} (log : Dict ℕ V) (logs : List (Dict ℕ V)) (index i : ℕ) (a : V)
      → lookup index log ≡ none
      → holds i index (log ∷ logs) ≡ some a
      → ((j : ℕ) → holds j index logs ≡ some a → P)
      → P
  elim_first log logs index zero a e h k = absurd (none≢some (sym e ∙ h))
  elim_first log logs index (suc i) a e h k = k i h

  -- The count is that of the holders, and the command is that of each of them.
  abbrev IsCounted : ℕ → List (Dict ℕ V) → Option (ℕ × Option V) → Type 0
  IsCounted index logs result =
      (cmd : Option V) × (result ≡ some (holders index logs, cmd))
      × ((i : ℕ) (a : V) → holds i index logs ≡ some a → cmd ≡ some a)

  count_all :
      (index : ℕ) (logs : List (Dict ℕ V))
      → ((i j : ℕ) (a b : V) → holds i index logs ≡ some a → holds j index logs ≡ some b → a ≡ b)
      → IsCounted index logs (count_committed index logs 0 none)
  unfolding count_committed clashes
  count_all index [] same = (none, refl, λ i a h. absurd (none≢some h))
  count_all index (log ∷ logs) same = elim (Option-cases (lookup index log)) [
    | inl e ↦
        let (cmd, counted, all) = count_all index logs (λ i j a b. same (suc i) (suc j) a b) in
        (
          cmd,
          count_none index log logs 0 none e
              ∙ counted
              ∙ ap (λ k. some (k, cmd)) (ground (arith, e)),
          λ i a h. elim_first log logs index i a e h (λ j. all j a),
        )
    | inr (c, e) ↦ (
      some c,
      count_one index log logs 0 none c e refl
          ∙ count_rest index logs (0 + 1) c (λ i a h. same (suc i) zero a c h e)
          ∙ ap (λ k. some (k, some c)) (ground (arith, e)),
      λ i a h. ap some (same zero i c a e h),
    )
  ]

  -- After the appliers of n servers have reported no error, `nCommitted` does not end the test: it
  -- counts the servers that have a command at the index, and gives the command that all of them
  -- have.
  pub n_committed_counts :
      (n : ℕ) (ms : List (Message V)) (cfg : Config V) (index : ℕ)
      → appliers ms (make_config n) ≡ some cfg
      → (cmd : Option V) × (n_committed index cfg ≡ some (holders index cfg.logs, cmd))
        × ((i : ℕ) (a : V) → holds i index cfg.logs ≡ some a → cmd ≡ some a)
  unfolding n_committed
  n_committed_counts n ms cfg index h =
      let agreed = appliers_ensure_agreement n ms cfg h in
      count_all index cfg.logs (λ i j a b. agreed.same i j index a b)
