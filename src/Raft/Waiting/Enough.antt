-- ===== src/Raft/Waiting/Enough.antt =====
-- raft/config.go: what `wait` has seen when it returns.
use dist_kv_raft.Common.{
  ℕ, ◌≤◌, ◌<◌, ltb, leb, Eq, if◌then◌else◌, true, false, Option, none, some, List, [], ◌∷◌, Has,
  ◌≡◌, refl, sym, ap, ◌∙◌, arith, inl, inr, Bool-cases, Option-cases, none≢some,
}
use dist_kv_raft.Raft.Harness.{Config, n_committed}
use dist_kv_raft.Raft.Harness.Agreement.{holds}
use dist_kv_raft.Raft.Harness.Counting.{holders}
use dist_kv_raft.Raft.Waiting.{
  Look, command, moved_on, test_fails, any_above, has_moved, wait_loop, wait,
}
use dist_kv_raft.Raft.Waiting.Agreed.{IsApplied, counted_holders}

above_inv : (t : ℕ) (terms : List ℕ) → any_above t terms ≡ true → (u : ℕ) × Has u terms × (t < u)
above_inv t [] e = ground (arith, e)
above_inv t (u ∷ us) e = elim (Bool-cases (ltb t u)) [
  | inl up ↦ (u, inl refl, ground (arith, up))
  | inr stays ↦ let (w, has, lt) = above_inv t us (ground (arith, stays, e)) in (w, inr has, lt)
]

-- A peer has a term beyond the one of the start.
abbrev pub IsBeyond : Option ℕ → List ℕ → Type 0
IsBeyond start_term terms = (t : ℕ) × (u : ℕ) × (start_term ≡ some t) × Has u terms × (t < u)

moved_inv :
    (start_term : Option ℕ) (terms : List ℕ)
    → has_moved start_term terms ≡ true
    → IsBeyond start_term terms
unfolding has_moved
moved_inv none terms e = ground (arith, e)
moved_inv (some t) terms e = let (u, has, lt) = above_inv t terms e in (t, u, refl, has, lt)

module _ {V : Type 0} ⦃go : Eq V⦄ (index n : ℕ) (start_term : Option ℕ) where
  abbrev IsShort : Look V → Type 0
  IsShort look =
      (nd : ℕ) × (cmd : Option V) × (n_committed index look.config ≡ some (nd, cmd)) × (nd < n)

  wait_stops :
      (look : Look V) (looks : List (Look V))
      → n_committed index look.config ≡ none
      → wait_loop index n start_term (look ∷ looks) ≡ none
  unfolding wait_loop
  wait_stops look looks e = rw (wait_loop, e)

  wait_counts :
      (look : Look V) (looks : List (Look V)) (nd : ℕ) (cmd : Option V)
      → n_committed index look.config ≡ some (nd, cmd)
      → wait_loop index n start_term (look ∷ looks) ≡ (
          if leb n nd
          then some false
          else if has_moved start_term look.terms
          then some true
          else wait_loop index n start_term looks)
  unfolding wait_loop
  wait_counts look looks nd cmd e = rw (wait_loop, e)

  -- The loop gives up only on a peer's later term, seen while too few had the command.
  loop_moved :
      (looks : List (Look V))
      → wait_loop index n start_term looks ≡ some true
      → (look : Look V) × Has look looks × IsShort look × IsBeyond start_term look.terms
  unfolding wait_loop
  loop_moved [] e = ground (arith, e)
  loop_moved (look ∷ looks) e = elim (Option-cases (n_committed index look.config)) [
    | inl clash ↦ absurd (none≢some (sym (wait_stops look looks clash) ∙ e))
    | inr ((nd, cmd), found) ↦
        let step = sym (wait_counts look looks nd cmd found) ∙ e in
        elim (Bool-cases (leb n nd)) [
          | inl enough ↦ ground (arith, step, enough)
          | inr short ↦ elim (Bool-cases (has_moved start_term look.terms)) [
            | inl moved ↦ (
              look,
              inl refl,
              (nd, cmd, found, ground (arith, short)),
              moved_inv start_term look.terms moved,
            )
            | inr stays ↦
                let (other, has, is, beyond) =
                  loop_moved looks (ground (arith, step, short, stays)) in
                (other, inr has, is, beyond)
          ]
        ]
  ]

  wait_last :
      (looks : List (Look V)) (last : Config V) (nd : ℕ) (cmd : Option V)
      → wait_loop index n start_term looks ≡ some false
      → n_committed index last ≡ some (nd, cmd)
      → wait index n start_term looks last ≡ (if ltb nd n then test_fails else command cmd)
  unfolding wait
  wait_last looks last nd cmd e f = rw (wait, e, f)

  -- Let the last look be at what the appliers of m servers have left. If `wait` returns a command,
  -- at least n servers have it at the index then, and no server has another one there. If it
  -- returns -1 for a later term, a peer had a term above that of the start at a look at which fewer
  -- than n servers had a command at the index.
  pub wait_lem :
      (m : ℕ) (looks : List (Look V)) (last : Config V)
      → IsApplied m last
      → ((cmd : Option V)
          → wait index n start_term looks last ≡ command cmd
          → (n ≤ holders index last.logs)
            × ((i : ℕ) (a : V) → holds i index last.logs ≡ some a → cmd ≡ some a))
        × (wait index n start_term looks last ≡ moved_on
            → (look : Look V) × Has look looks × IsShort look × IsBeyond start_term look.terms)
  unfolding wait
  wait_lem m looks last real = elim (Option-cases (wait_loop index n start_term looks)) [
    | inl clash ↦ (λ cmd e. ground (arith, clash, e), λ e. ground (arith, clash, e))
    | inr (moved, loop) ↦ elim (Bool-cases moved) [
      | inl gone ↦
          (λ cmd e. ground (arith, loop, gone, e), λ e. loop_moved looks (loop ∙ ap some gone))
      | inr stays ↦ elim (Option-cases (n_committed index last)) [
        | inl clash ↦ (
          λ cmd e. ground (arith, loop, stays, clash, e),
          λ e. ground (arith, loop, stays, clash, e),
        )
        | inr ((nd, found), counted) ↦
            let real_count = counted_holders m index nd found last real counted in
            let done = wait_last looks last nd found (loop ∙ ap some stays) counted in
            elim (Bool-cases (ltb nd n)) [
              | inl few ↦ (λ cmd e. ground (arith, done, few, e), λ e. ground (arith, done, few, e))
              | inr enough ↦ (
                λ cmd e.
                    let same : found ≡ cmd = ground (arith, done, enough, e) in
                    (ground (arith, enough, real_count.0), λ i a h. sym same ∙ real_count.1 i a h),
                λ e. ground (arith, done, enough, e),
              )
            ]
      ]
    ]
  ]
