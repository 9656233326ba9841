-- ===== src/Raft/Leaders/Rounds.antt =====
-- raft/config.go: the answer of checkOneLeader, over its iterations.
use dist_kv_raft.Common.{
  ℕ, zero, suc, ◌+◌, ◌≤◌, ◌<◌, nat_eq, Option, none, some, List, ◌≡◌, refl, ap, subst, arith, ◌⊎◌,
  inl, inr,
}
use dist_kv_raft.Raft.Leaders.{
  View, Seen, fatal, panics, no_leader, leader_is, look_once, or_again, look_for_leader, rounds,
  check_one_leader,
}
use dist_kv_raft.Raft.Leaders.Unique.{IsLeaderless, HasRivals, IsLeader, Matches, look_once_lem}

abbrev Fails : (ℕ → List View) → ℕ → ℕ → Type 0
Fails at iters n =
    ((r : ℕ) → iters ≤ r → r < iters + n → IsLeaderless (at r))
    ⊎ ((r : ℕ) × (r < iters + n) × HasRivals (at r))

abbrev Finds : (ℕ → List View) → ℕ → ℕ → ℕ → Type 0
Finds at iters n i =
    (r : ℕ) × (iters ≤ r)
    × (r < iters + n)
    × ((q : ℕ) → iters ≤ q → q < r → IsLeaderless (at q))
    × IsLeader (at r) i

abbrev Ends : (ℕ → List View) → ℕ → ℕ → Option ℕ → Type 0
Ends at iters n none = Fails at iters n
Ends at iters n (some i) = Finds at iters n i

le_cases : (m n : ℕ) → m ≤ n → (m ≡ n) ⊎ (suc m ≤ n)
le_cases zero zero h = inl refl
le_cases zero (suc n) h = inr (omega arith)
le_cases (suc m) zero h = absurd (omega arith)
le_cases (suc m) (suc n) h = elim (le_cases m n (omega arith)) [
  | inl e ↦ inl (ap suc e)
  | inr l ↦ inr (omega arith)
]

one_more :
    (at : ℕ → List View) (iters n : ℕ) (result : Option ℕ)
    → IsLeaderless (at iters)
    → Ends at (suc iters) n result
    → Ends at iters (suc n) result
one_more at iters n none first (inl nobody) = inl λ r low high. elim (le_cases iters r low) [
  | inl same ↦ subst (λ x. IsLeaderless (at x)) same first
  | inr later ↦ nobody r later (omega arith)
]
one_more at iters n none first (inr (r, high, rivals)) = inr (r, omega arith, rivals)
one_more at iters n (some i) first (r, low, high, before, leader) = (
  r,
  omega arith,
  omega arith,
  λ q from to. elim (le_cases iters q from) [
    | inl same ↦ subst (λ x. IsLeaderless (at x)) same first
    | inr later ↦ before q later to
  ],
  leader,
)

seen-Ends :
    (at : ℕ → List View) (iters n : ℕ) (seen : Seen) (rest : Option ℕ)
    → Matches (at iters) seen
    → Ends at (suc iters) n rest
    → Ends at iters (suc n) (or_again seen rest)
seen-Ends at iters n fatal rest m ends = inr (iters, omega arith, m)
seen-Ends at iters n panics rest m ends = absurd m
seen-Ends at iters n no_leader rest m ends = one_more at iters n rest m ends
seen-Ends at iters n (leader_is i) rest m ends =
    (iters, omega arith, omega arith, λ q from to. absurd (omega arith), m)

rounds_end :
    (at : ℕ → List View) (n iters : ℕ) → Ends at iters n (look_for_leader (rounds n iters at))
unfolding look_for_leader rounds
rounds_end at zero iters = inl λ r low high. absurd (omega arith)
rounds_end at (suc n) iters =
    seen-Ends at iters n (look_once (at iters)) (look_for_leader (rounds n (suc iters) at))
      (look_once_lem (at iters)) (rounds_end at n (suc iters))

-- What an answer of checkOneLeader says of the ten iterations; `none` is the end of the test.
abbrev pub Tells : (ℕ → List View) → Option ℕ → Type 0
Tells at none = ((r : ℕ) → r < 10 → IsLeaderless (at r)) ⊎ ((r : ℕ) × (r < 10) × HasRivals (at r))
Tells at (some i) = (r : ℕ) × (r < 10) × ((q : ℕ) → q < r → IsLeaderless (at q)) × IsLeader (at r) i

Ends-tell : (at : ℕ → List View) (result : Option ℕ) → Ends at 0 10 result → Tells at result
Ends-tell at none (inl nobody) = inl λ r high. nobody r (omega arith) (omega arith)
Ends-tell at none (inr (r, high, two)) = inr (r, omega arith, two)
Ends-tell at (some i) (r, low, high, before, leader) =
    (r, omega arith, λ q to. before q (omega arith) to, leader)

-- checkOneLeader never indexes past a list. If it returns i, then in one of the ten iterations,
-- before which no connected server led, i leads in the latest term that has a connected leader, and
-- no term has two. If the test ends instead, no connected server led in any iteration, or in one of
-- them two connected servers led in one term.
pub one_leader_found : (at : ℕ → List View) → Tells at (check_one_leader at)
unfolding check_one_leader
one_leader_found at = Ends-tell at (check_one_leader at) (rounds_end at 10 0)
