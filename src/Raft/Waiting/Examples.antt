-- ===== src/Raft/Waiting/Examples.antt =====
-- Two servers of which the second leads and is met last.
use dist_kv_raft.Common.{
  ℕ, ◌≤◌, ◌<◌, ◌≡◌, refl, sym, subst, true, false, some, List, [], ◌∷◌, Has, inl, inr, nat_eq,
  lookup, insert,
}
use dist_kv_raft.Raft.Harness.{
  Config, Message, make_config, appliers, applier_step, check_logs, conflicts, differs, prev_ok,
  n_committed, clashes,
}
use dist_kv_raft.Raft.Harness.Agreement.{holds}
use dist_kv_raft.Raft.Harness.Counting.{holders}
use dist_kv_raft.Raft.Waiting.{
  Look, command, Peer, Attempt, agreed_at, started_at, try_starts, check_looks, one, wait_loop,
  wait,
}
use dist_kv_raft.Raft.Waiting.Agreed.{IsApplied, one_agrees}

abbrev sent : ℕ → Message ℕ
sent server = record { server = server; command_valid = true; command = 70; command_index = 1 }

abbrev both : Config ℕ
both = record { logs = ((1, 70) ∷ []) ∷ ((1, 70) ∷ []) ∷ []; max_index = 1 }

both-IsApplied : IsApplied 2 both
unfolding appliers applier_step check_logs conflicts differs prev_ok lookup insert make_config
both-IsApplied = (sent 0 ∷ sent 1 ∷ [], refl)

abbrev peers : List Peer
peers =
    record { connected = false; started = some 5 }
    ∷ record { connected = true; started = some 1 }
    ∷ []

abbrev attempt : Attempt ℕ
attempt = record { peers = peers; looks = both ∷ [] }

attempts-AreApplied :
    (a : Attempt ℕ) (cfg : Config ℕ) → Has a (attempt ∷ []) → Has cfg a.looks → IsApplied 2 cfg
attempts-AreApplied a cfg (inl e) has = elim (subst (λ (x : Attempt ℕ). Has cfg x.looks) e has) [
  | inl same ↦ subst (IsApplied 2) (sym same) both-IsApplied
  | inr rest ↦ absurd rest
]
attempts-AreApplied a cfg (inr rest) has = absurd rest

agrees : one 70 2 false 2 false (attempt ∷ []) ≡ agreed_at 1
unfolding one check_looks n_committed clashes differs lookup try_starts
agrees = refl

one_agrees_example :
    (a : Attempt ℕ) × (cfg : Config ℕ) × (s : ℕ) × Has a (attempt ∷ [])
    × Has cfg a.looks
    × (started_at s a.peers ≡ some 1)
    × (2 ≤ holders 1 cfg.logs)
    × (0 < holders 1 cfg.logs)
    × ((i : ℕ) (c : ℕ) → holds i 1 cfg.logs ≡ some c → c ≡ 70)
one_agrees_example = one_agrees 70 2 false 2 false (attempt ∷ []) 1 attempts-AreApplied agrees

abbrev look : Look ℕ
look = record { config = both; terms = 3 ∷ 3 ∷ [] }

waits : wait 1 2 (some 3) (look ∷ []) both ≡ command (some 70)
unfolding wait wait_loop n_committed clashes differs lookup
waits = refl
