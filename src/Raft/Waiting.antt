-- ===== src/Raft/Waiting.antt =====
-- raft/config.go: wait and one. What the peers have applied and answer at each look is an argument;
-- so are the clock and the flag `finished`, by the number of rounds that they allow.
pub mod Agreed
pub mod Enough
pub mod Tries
mod Examples
use dist_kv_raft.Common.{
  ℕ, zero, suc, ◌+◌, ◌%◌, ltb, leb, ◌==◌, Eq, if◌then◌else◌, Bool, true, false, not, ◌&&◌, ◌||◌,
  Option, none, some, List, [], ◌∷◌, get_elem?,
}
use dist_kv_raft.Raft.Harness.{Config, n_committed}

-- A look of `wait`: the configuration, and then the terms of the peers.
pub record Look (V : Type 0) : Type 0 where
  pub config : Config V
  pub terms : List ℕ

pub data Waited (V : Type 0) : Type 0 where
  command : Option V → Waited V
  moved_on : Waited V
  test_fails : Waited V

abbrev pub any_above : ℕ → List ℕ → Bool
any_above start_term [] = false
any_above start_term (t ∷ terms) = ltb start_term t || any_above start_term terms

-- `startTerm > -1`, and a peer is beyond it; `none` is -1.
unfoldable pub has_moved : Option ℕ → List ℕ → Bool
has_moved none terms = false
has_moved (some start_term) terms = any_above start_term terms

-- One server of a peer in `one`: whether it is connected, and what its `Start` answers, if there is
-- a peer and it takes the command.
pub record Peer : Type 0 where
  pub connected : Bool
  pub started : Option ℕ

-- A round of the loop of `one`: the peers, and the configurations that are looked at while the two
-- seconds last.
pub record Attempt (V : Type 0) : Type 0 where
  pub peers : List Peer
  pub looks : List (Config V)

pub data OneResult : Type 0 where
  agreed_at : ℕ → OneResult
  gave_up : OneResult
  one_fails : OneResult

pub data Checked : Type 0 where
  agreed : Checked
  clashed : Checked
  timed_out : Checked

abbrev pub started_at : ℕ → List Peer → Option ℕ
started_at i peers = elim (get_elem? peers i) [
  | none ↦ none
  | some p ↦ if p.connected then p.started else none
]

-- The loop over the servers, with the rounds left; `starts`, and the index if one took the command.
unfoldable pub try_starts : ℕ → ℕ → List Peer → ℕ → ℕ × Option ℕ
try_starts zero n peers starts = (starts, none)
try_starts (suc left) n peers starts =
    let next = (starts + 1) % n in
    elim (started_at next peers) [
      | none ↦ try_starts left n peers next
      | some index ↦ (next, some index)
    ]

abbrev pub is_one : {V : Type 0} ⦃go : Eq V⦄ → Option V → V → Bool
is_one none cmd = false
is_one (some cmd1) cmd = cmd1 == cmd

abbrev pub after_looks : Bool → ℕ → Checked → OneResult → OneResult
after_looks retry index agreed further = agreed_at index
after_looks retry index clashed further = one_fails
after_looks retry index timed_out further = if retry then further else one_fails

module _ {V : Type 0} ⦃go : Eq V⦄ where
  -- The iterations left; `none` where nCommitted ends the test, true where `wait` returns -1.
  unfoldable pub wait_loop : ℕ → ℕ → Option ℕ → List (Look V) → Option Bool
  unfolding has_moved
  wait_loop index n start_term [] = some false
  wait_loop index n start_term (look ∷ looks) =
      let further = wait_loop index n start_term looks in
      elim (n_committed index look.config) [
        | none ↦ none
        | some (nd, cmd) ↦
            if leb n nd
            then some false
            else if has_moved start_term look.terms
            then some true
            else further
      ]

  -- `looks` are those of the loop, 30 at most, and `last` the one after it.
  unfoldable pub wait : ℕ → ℕ → Option ℕ → List (Look V) → Config V → Waited V
  unfolding wait_loop
  wait index n start_term looks last = elim (wait_loop index n start_term looks) [
    | none ↦ test_fails
    | some true ↦ moved_on
    | some false ↦ elim (n_committed index last) [
      | none ↦ test_fails
      | some (nd, cmd) ↦ if ltb nd n then test_fails else command cmd
    ]
  ]

  -- The loop that waits for the agreement.
  unfoldable pub check_looks : ℕ → V → ℕ → List (Config V) → Checked
  check_looks index cmd expected [] = timed_out
  check_looks index cmd expected (cfg ∷ looks) =
      let further = check_looks index cmd expected looks in
      elim (n_committed index cfg) [
        | none ↦ clashed
        | some (nd, cmd1) ↦
            if (ltb 0 nd && leb expected nd) && is_one cmd1 cmd then agreed else further
      ]

  -- The loop of `one`; `finished` is `checkFinished` when it ends.
  unfoldable pub one_loop : V → ℕ → Bool → ℕ → Bool → List (Attempt V) → ℕ → OneResult
  unfolding try_starts check_looks
  one_loop cmd expected retry n finished [] starts = if finished then gave_up else one_fails
  one_loop cmd expected retry n finished (a ∷ attempts) starts =
      let tried = try_starts n n a.peers starts in
      let further = one_loop cmd expected retry n finished attempts tried.0 in
      elim tried.1 [
        | none ↦ further
        | some index ↦ after_looks retry index (check_looks index cmd expected a.looks) further
      ]

  unfoldable pub one : V → ℕ → Bool → ℕ → Bool → List (Attempt V) → OneResult
  unfolding one_loop
  one cmd expected retry n finished attempts = one_loop cmd expected retry n finished attempts 0
