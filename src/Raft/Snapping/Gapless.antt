-- ===== src/Raft/Snapping/Gapless.antt =====
-- raft/config.go: a log without gaps, and a server that is given a new one.
use dist_kv_raft.Common.{
  ℕ, zero, suc, ◌≤◌, ◌<◌, ◌==◌, nat_eq, nat_beq_iff, some, List, [], Dict, lookup,
  get_elem?-set_other, set, length, length-set, length-replicate, replicate, ◌≡◌, refl, ap, ◌∙◌,
  subst, arith, inl, inr, Bool-cases,
}
use dist_kv_raft.Raft.Harness.{log_of, make_config}
use dist_kv_raft.Raft.Snapping.{Snapping, make_snapping, last_of}
use dist_kv_raft.Raft.Snapping.Restored.{log_of-set, last_of-set}

dec_eq : {P : Type 0} (i j : ℕ) → (i ≡ j → P) → (¬ (i ≡ j) → P) → P
dec_eq i j same other = elim (Bool-cases (i == j)) [
  | inl e ↦ same ((nat_beq_iff i j).0 e)
  | inr f ↦ other λ e. ground (arith, f, e)
]

last_of-set_other :
    (i j : ℕ) (lasts : List ℕ) (last : ℕ)
    → ¬ (j ≡ i)
    → last_of j (set lasts i last) ≡ last_of j lasts
last_of-set_other i j lasts last ne = ground (arith, get_elem?-set_other lasts i j last ne)

nothing_applied : (n i : ℕ) → last_of i (replicate n 0) ≡ 0
nothing_applied zero i = refl
nothing_applied (suc n) zero = refl
nothing_applied (suc n) (suc i) = nothing_applied n i

module _ {V : Type 0} where
  log_of-set_other :
      (i j : ℕ) (logs : List (Dict ℕ V)) (log : Dict ℕ V)
      → ¬ (j ≡ i)
      → log_of j (set logs i log) ≡ log_of j logs
  log_of-set_other i j logs log ne = ground (arith, get_elem?-set_other logs i j log ne)

  -- n servers, and a command at every index from 1 to the last that a server has applied.
  pub record IsFilled (n : ℕ) (s : Snapping V) : Type 0 where
    pub logs_n : length s.base.logs ≡ n
    pub last_n : length s.last_applied ≡ n
    pub filled :
        (i k : ℕ)
        → i < n
        → 0 < k
        → k ≤ last_of i s.last_applied
        → (v : V) × (lookup k (log_of i s.base.logs) ≡ some v)

  -- Server `i` gets a log and a last index that fit.
  pub replaced :
      (n i last : ℕ) (log : Dict ℕ V) (s s' : Snapping V)
      → i < n
      → IsFilled n s
      → s'.base.logs ≡ set s.base.logs i log
      → s'.last_applied ≡ set s.last_applied i last
      → ((k : ℕ) → 0 < k → k ≤ last → (v : V) × (lookup k log ≡ some v))
      → IsFilled n s'
  replaced n i last log s s' lt f logs lasts own = record {
    logs_n = ap length logs ∙ length-set s.base.logs i log ∙ f.logs_n;
    last_n = ap length lasts ∙ length-set s.last_applied i last ∙ f.last_n;
    filled = λ j k lj pos low.
        dec_eq j i
          (λ same.
            let whole : log_of j s'.base.logs ≡ log =
              ap (λ l. log_of j l) logs
              ∙ ap (λ x. log_of x (set s.base.logs i log)) same
              ∙ log_of-set i s.base.logs log (omega (arith, f.logs_n)) in
            let low' : k ≤ last =
              subst (λ x. k ≤ x)
                (ap (λ l. last_of j l) lasts
                  ∙ ap (λ x. last_of x (set s.last_applied i last)) same
                  ∙ last_of-set i s.last_applied last (omega (arith, f.last_n)))
                low in
            let (v, e) = own k pos low' in (v, ap (lookup k) whole ∙ e))
          (λ differs.
            let (v, e) = f.filled j k lj pos (
              subst (λ x. k ≤ x)
                (ap (λ l. last_of j l) lasts ∙ last_of-set_other i j s.last_applied last differs)
                low) in
            (
              v,
              ap (lookup k)
                    (ap (λ l. log_of j l) logs ∙ log_of-set_other i j s.base.logs log differs)
                  ∙ e,
            ));
  }

  pub start-IsFilled : (n : ℕ) → IsFilled n (make_snapping {V = V} n)
  unfolding make_snapping make_config
  start-IsFilled n = record {
    logs_n = length-replicate n [];
    last_n = length-replicate n 0;
    filled = λ i k lt pos low. absurd (omega (arith, subst (λ x. k ≤ x) (nothing_applied n i) low));
  }
