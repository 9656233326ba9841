-- ===== src/Raft/Waiting/Tries.antt =====
-- raft/config.go: the loop of `one` over the servers misses none.
use native.Mathlib.Nat.{mod-eq_of_lt, mod-eq-sub-mod}
use dist_kv_raft.Common.{
  ℕ, zero, suc, ◌+◌, ◌%◌, ◌≤◌, ◌<◌, Option, none, some, false, List, ◌≡◌, sym, ap, ◌∙◌, subst,
  arith, ◌⊎◌, inl, inr, Option-cases, Bool-cases, ltb, ltb→lt, ◌==◌, nat_eq, none≢some,
}
use dist_kv_raft.Raft.Waiting.{Peer, started_at, try_starts}
use dist_kv_raft.Raft.Waiting.Agreed.{try_none, try_some, try_starts-some}

next_server :
    (n starts : ℕ)
    → starts < n
    → (((starts + 1) % n ≡ starts + 1) × (starts + 1 < n))
      ⊎ (((starts + 1) % n ≡ 0) × (starts + 1 ≡ n))
next_server n starts lt = elim (Bool-cases (ltb (starts + 1) n)) [
  | inl more ↦ inl (mod-eq_of_lt (ltb→lt (starts + 1) n more), ltb→lt (starts + 1) n more)
  | inr last ↦
      let e : starts + 1 ≡ n = ground (arith, last) in
      inr (ap (λ m. m % n) e ∙ grind (arith, mod-eq-sub-mod, mod-eq_of_lt), e)
]

-- Whether the loop meets server `s` before the rounds are used up.
abbrev IsAhead : ℕ → ℕ → ℕ → ℕ → Type 0
IsAhead left n starts s = ((starts < s) × (s ≤ starts + left)) ⊎ (s + n ≤ starts + left)

IsAhead-next :
    (left n starts next s : ℕ)
    → starts < n
    → s < n
    → (next == s) ≡ false
    → ((next ≡ starts + 1) × (starts + 1 < n)) ⊎ ((next ≡ 0) × (starts + 1 ≡ n))
    → IsAhead (suc left) n starts s
    → IsAhead left n next s
IsAhead-next left n starts next s lt ls further (inl up) (inl first) =
    inl (ground (arith, further), ground arith)
IsAhead-next left n starts next s lt ls further (inl up) (inr second) = inr (omega arith)
IsAhead-next left n starts next s lt ls further (inr wrap) (inl first) = absurd (omega arith)
IsAhead-next left n starts next s lt ls further (inr wrap) (inr second) =
    inl (ground (arith, further), omega arith)

next-lt :
    (n starts next : ℕ)
    → starts < n
    → ((next ≡ starts + 1) × (starts + 1 < n)) ⊎ ((next ≡ 0) × (starts + 1 ≡ n))
    → next < n
next-lt n starts next lt (inl up) = omega arith
next-lt n starts next lt (inr wrap) = omega arith

all_ahead_tried :
    (left n : ℕ) (peers : List Peer) (starts s : ℕ)
    → starts < n
    → s < n
    → IsAhead left n starts s
    → (try_starts left n peers starts).1 ≡ none
    → started_at s peers ≡ none
unfolding try_starts
all_ahead_tried zero n peers starts s lt ls ahead e = absurd (ground (arith, ahead))
all_ahead_tried (suc left) n peers starts s lt ls ahead e =
    let next = (starts + 1) % n in
    elim (Option-cases (started_at next peers)) [
      | inl idle ↦
          let e' = sym (ap (λ (r : ℕ × Option ℕ). r.1) (try_none left n peers starts idle)) ∙ e in
          elim (Bool-cases (next == s)) [
            | inl here ↦ subst (λ k. started_at k peers ≡ none) (ground (arith, here)) idle
            | inr further ↦
                all_ahead_tried left n peers next s
                  (next-lt n starts next lt (next_server n starts lt)) ls
                  (IsAhead-next left n starts next s lt ls further (next_server n starts lt) ahead)
                  e'
          ]
      | inr (index, ok) ↦ absurd (
          none≢some
            (sym e ∙ ap (λ (r : ℕ × Option ℕ). r.1) (try_some left n peers starts index ok)))
    ]

all-IsAhead : (n starts s : ℕ) → starts < n → s < n → IsAhead n n starts s
all-IsAhead n starts s lt ls = elim (Bool-cases (ltb starts s)) [
  | inl up ↦ inl (ltb→lt starts s up, omega arith)
  | inr down ↦ inr (ground (arith, down))
]

-- If some connected server takes the command when it is asked, a round of `one` over n servers ends
-- with the index that a connected server gave, wherever the round starts.
pub taker_is_met :
    (n : ℕ) (peers : List Peer) (starts s index : ℕ)
    → starts < n
    → s < n
    → started_at s peers ≡ some index
    → (met : ℕ) × (index1 : ℕ) × (try_starts n n peers starts ≡ (met, some index1))
      × (started_at met peers ≡ some index1)
taker_is_met n peers starts s index lt ls takes =
    let tried = try_starts n n peers starts in
    elim (Option-cases tried.1) [
      | inl nobody ↦ absurd (
          none≢some (
            sym (all_ahead_tried n n peers starts s lt ls (all-IsAhead n starts s lt ls) nobody)
            ∙ takes))
      | inr (index1, e) ↦
          let whole : try_starts n n peers starts ≡ (tried.0, some index1) =
            ap (λ o. (tried.0, o)) e in
          (tried.0, index1, whole, try_starts-some n n peers starts tried.0 index1 whole)
    ]
