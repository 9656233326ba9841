-- ===== src/Raft/Waiting/Agreed.antt =====
-- raft/config.go: what holds when `one` or `wait` returns.
use dist_kv_raft.Common.{
  ℕ, zero, suc, ◌+◌, ◌%◌, ◌≤◌, ◌<◌, ltb, leb, Eq, if◌then◌else◌, Bool, true, false, ◌&&◌, Option,
  none, some, List, [], ◌∷◌, Has, ◌≡◌, refl, sym, ap, ◌∙◌, subst, arith, ◌⊎◌, inl, inr, Bool-cases,
  Option-cases, none≢some, some_inj,
}
use dist_kv_raft.Raft.Harness.{Config, Message, make_config, appliers, n_committed}
use dist_kv_raft.Raft.Harness.Agreement.{holds}
use dist_kv_raft.Raft.Harness.Counting.{holders, n_committed_counts}
use dist_kv_raft.Raft.Waiting.{
  Peer, Attempt, OneResult, agreed_at, Checked, agreed, clashed, timed_out, started_at, try_starts,
  is_one, after_looks, check_looks, one_loop, one,
}

pub try_none :
    (left n : ℕ) (peers : List Peer) (starts : ℕ)
    → started_at ((starts + 1) % n) peers ≡ none
    → try_starts (suc left) n peers starts ≡ try_starts left n peers ((starts + 1) % n)
unfolding try_starts
try_none left n peers starts e = rw (try_starts, e)

pub try_some :
    (left n : ℕ) (peers : List Peer) (starts index : ℕ)
    → started_at ((starts + 1) % n) peers ≡ some index
    → try_starts (suc left) n peers starts ≡ ((starts + 1) % n, some index)
unfolding try_starts
try_some left n peers starts index e = rw (try_starts, e)

pub try_starts-some :
    (left n : ℕ) (peers : List Peer) (starts s index : ℕ)
    → try_starts left n peers starts ≡ (s, some index)
    → started_at s peers ≡ some index
unfolding try_starts
try_starts-some zero n peers starts s index e =
    absurd (none≢some (ap (λ (r : ℕ × Option ℕ). r.1) e))
try_starts-some (suc left) n peers starts s index e =
    elim (Option-cases (started_at ((starts + 1) % n) peers)) [
      | inl idle ↦
          try_starts-some left n peers ((starts + 1) % n) s index
            (sym (try_none left n peers starts idle) ∙ e)
      | inr (index1, ok) ↦
          let same = sym (try_some left n peers starts index1 ok) ∙ e in
          subst (λ x. started_at x peers ≡ some index) (ap (λ (r : ℕ × Option ℕ). r.0) same)
            (ok ∙ ap (λ (r : ℕ × Option ℕ). r.1) same)
    ]

after_inv :
    (retry : Bool) (index1 index : ℕ) (c : Checked) (further : OneResult)
    → after_looks retry index1 c further ≡ agreed_at index
    → ((c ≡ agreed) × (index1 ≡ index)) ⊎ (further ≡ agreed_at index)
after_inv retry index1 index agreed further e = inl (refl, ground (arith, e))
after_inv retry index1 index clashed further e = ground (arith, e)
after_inv true index1 index timed_out further e = inr e
after_inv false index1 index timed_out further e = ground (arith, e)

module _ {V : Type 0} ⦃go : Eq V⦄ where
  -- A look that shows the agreement.
  abbrev IsAgreed : ℕ → V → ℕ → Config V → Type 0
  IsAgreed index cmd expected cfg =
      (nd : ℕ) × (n_committed index cfg ≡ some (nd, some cmd)) × (0 < nd) × (expected ≤ nd)

  look_agrees :
      (index : ℕ) (cmd : V) (expected nd : ℕ) (cmd1 : Option V) (cfg : Config V)
      → n_committed index cfg ≡ some (nd, cmd1)
      → ((ltb 0 nd && leb expected nd) && is_one cmd1 cmd) ≡ true
      → IsAgreed index cmd expected cfg
  look_agrees index cmd expected nd none cfg e t = ground (arith, t)
  look_agrees index cmd expected nd (some c) cfg e t =
      let same = (go.equal_iff c cmd).0 (ground (arith, t)) in
      (nd, e ∙ ap (λ x. some (nd, some x)) same, ground (arith, t), ground (arith, t))

  module _ (index : ℕ) (cmd : V) (expected : ℕ) (cfg : Config V) (looks : List (Config V)) where
    looks_clash :
        n_committed index cfg ≡ none → check_looks index cmd expected (cfg ∷ looks) ≡ clashed
    unfolding check_looks
    looks_clash e = rw (check_looks, e)

    looks_agree :
        (nd : ℕ) (cmd1 : Option V)
        → n_committed index cfg ≡ some (nd, cmd1)
        → check_looks index cmd expected (cfg ∷ looks) ≡ (
            if (ltb 0 nd && leb expected nd) && is_one cmd1 cmd
            then agreed
            else check_looks index cmd expected looks)
    unfolding check_looks
    looks_agree nd cmd1 e = rw (check_looks, e)

  check_looks_agreed :
      (index : ℕ) (cmd : V) (expected : ℕ) (looks : List (Config V))
      → check_looks index cmd expected looks ≡ agreed
      → (cfg : Config V) × Has cfg looks × IsAgreed index cmd expected cfg
  unfolding check_looks
  check_looks_agreed index cmd expected [] e = ground (arith, e)
  check_looks_agreed index cmd expected (cfg ∷ looks) e =
      elim (Option-cases (n_committed index cfg)) [
        | inl none_yet ↦ ground (arith, looks_clash index cmd expected cfg looks none_yet, e)
        | inr ((nd, cmd1), found) ↦
            elim (Bool-cases ((ltb 0 nd && leb expected nd) && is_one cmd1 cmd)) [
              | inl t ↦ (cfg, inl refl, look_agrees index cmd expected nd cmd1 cfg found t)
              | inr f ↦
                  let (cfg', has, is) = check_looks_agreed index cmd expected looks (
                    ground (arith, looks_agree index cmd expected cfg looks nd cmd1 found, f, e)) in
                  (cfg', inr has, is)
            ]
      ]

  -- An attempt in which a connected server took the command for an index, and a look of it at which
  -- enough servers had this command there.
  abbrev IsReached : ℕ → V → ℕ → List (Attempt V) → Type 0
  IsReached index cmd expected attempts =
      (a : Attempt V) × (cfg : Config V) × (s : ℕ) × Has a attempts
      × Has cfg a.looks
      × (started_at s a.peers ≡ some index)
      × IsAgreed index cmd expected cfg

  later_attempt :
      (index : ℕ) (cmd : V) (expected : ℕ) (a : Attempt V) (attempts : List (Attempt V))
      → IsReached index cmd expected attempts
      → IsReached index cmd expected (a ∷ attempts)
  later_attempt index cmd expected a attempts (b, cfg, s, has, seen, ok, is) =
      (b, cfg, s, inr has, seen, ok, is)

  module _ (cmd : V) (expected : ℕ) (retry : Bool) (n : ℕ) (finished : Bool) where
    loop_next :
        (a : Attempt V) (attempts : List (Attempt V)) (starts : ℕ)
        → (try_starts n n a.peers starts).1 ≡ none
        → one_loop cmd expected retry n finished (a ∷ attempts) starts
          ≡ one_loop cmd expected retry n finished attempts (try_starts n n a.peers starts).0
    unfolding one_loop
    loop_next a attempts starts e = rw (one_loop, e)

    loop_waits :
        (a : Attempt V) (attempts : List (Attempt V)) (starts index : ℕ)
        → (try_starts n n a.peers starts).1 ≡ some index
        → one_loop cmd expected retry n finished (a ∷ attempts) starts
          ≡ after_looks retry index
              (check_looks index cmd expected a.looks)
              (one_loop cmd expected retry n finished attempts (try_starts n n a.peers starts).0)
    unfolding one_loop
    loop_waits a attempts starts index e = rw (one_loop, e)

    one_loop-IsReached :
        (attempts : List (Attempt V)) (starts index : ℕ)
        → one_loop cmd expected retry n finished attempts starts ≡ agreed_at index
        → IsReached index cmd expected attempts
    unfolding one_loop
    one_loop-IsReached [] starts index e = ground (arith, e)
    one_loop-IsReached (a ∷ attempts) starts index e =
        let tried = try_starts n n a.peers starts in
        elim (Option-cases tried.1) [
          | inl idle ↦ later_attempt index cmd expected a attempts (
              one_loop-IsReached attempts tried.0 index
                (sym (loop_next a attempts starts idle) ∙ e))
          | inr (index1, ok) ↦
              elim (after_inv retry index1 index (check_looks index1 cmd expected a.looks)
                (one_loop cmd expected retry n finished attempts tried.0)
                (sym (loop_waits a attempts starts index1 ok) ∙ e)) [
                  | inl (good, same) ↦
                      let (cfg, seen, is) =
                        check_looks_agreed index cmd expected a.looks
                          (subst (λ k. check_looks k cmd expected a.looks ≡ agreed) same good) in
                      (
                        a,
                        cfg,
                        tried.0,
                        inl refl,
                        seen,
                        try_starts-some n n a.peers starts tried.0 index
                            (ap (λ o. (tried.0, o)) (ok ∙ ap some same)),
                        is,
                      )
                  | inr later ↦
                      later_attempt index cmd expected a attempts
                        (one_loop-IsReached attempts tried.0 index later)
                ]
        ]

  -- What the appliers of n servers have left so.
  abbrev pub IsApplied : ℕ → Config V → Type 0
  IsApplied n cfg = (ms : List (Message V)) × (appliers ms (make_config n) ≡ some cfg)

  pub counted_holders :
      (n index nd : ℕ) (cmd : Option V) (cfg : Config V)
      → IsApplied n cfg
      → n_committed index cfg ≡ some (nd, cmd)
      → (nd ≡ holders index cfg.logs)
        × ((i : ℕ) (a : V) → holds i index cfg.logs ≡ some a → cmd ≡ some a)
  counted_holders n index nd cmd cfg (ms, run) e =
      let (cmd', counted, all) = n_committed_counts n ms cfg index run in
      let same = some_inj (sym e ∙ counted) in
      (
        ap (λ (r : ℕ × Option V). r.0) same,
        λ i a h. ap (λ (r : ℕ × Option V). r.1) same ∙ all i a h,
      )

  -- Let all that `one` looks at be left by the appliers of n servers. If it returns an index, then
  -- in one of its rounds a connected server had taken the command for this index, and at a look of
  -- this round at least the expected number of servers, and at least one, had a command at the
  -- index; each of them had the command of the call.
  pub one_agrees :
      (cmd : V) (expected : ℕ) (retry : Bool) (n : ℕ) (finished : Bool)
      (attempts : List (Attempt V)) (index : ℕ)
      → ((a : Attempt V) (cfg : Config V) → Has a attempts → Has cfg a.looks → IsApplied n cfg)
      → one cmd expected retry n finished attempts ≡ agreed_at index
      → (a : Attempt V) × (cfg : Config V) × (s : ℕ) × Has a attempts
        × Has cfg a.looks
        × (started_at s a.peers ≡ some index)
        × (expected ≤ holders index cfg.logs)
        × (0 < holders index cfg.logs)
        × ((i : ℕ) (c : V) → holds i index cfg.logs ≡ some c → c ≡ cmd)
  unfolding one
  one_agrees cmd expected retry n finished attempts index real e =
      let (a, cfg, s, has, seen, ok, (nd, counted, pos, enough)) =
        one_loop-IsReached cmd expected retry n finished attempts 0 index e in
      let (count, all) = counted_holders n index nd (some cmd) cfg (real a cfg has seen) counted in
      (a, cfg, s, has, seen, ok, omega arith, omega arith, λ i c h. sym (some_inj (all i c h)))
