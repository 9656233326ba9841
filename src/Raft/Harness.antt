-- ===== src/Raft/Harness.antt =====
-- raft/config.go: the checks that the tests make on what the peers apply. `V` is the type of the
-- commands, `interface{}` in the source; the texts of the errors are left out.
pub mod Agreement
pub mod Counting
mod Examples
use dist_kv_raft.Common.{
  ℕ, zero, suc, ◌+◌, ltb, ◌==◌, Eq, nat_eq, if◌then◌else◌, Bool, true, false, not, ◌&&◌, ◌||◌,
  Option, none, some, List, [], ◌∷◌, Dict, lookup, insert, get_elem?, set, replicate,
}

-- What the appliers change of a `config`.
pub record Config (V : Type 0) : Type 0 where
  pub logs : List (Dict ℕ V)
  pub max_index : ℕ

-- A message on the channel of a server, as far as `applier` reads it.
pub record Message (V : Type 0) : Type 0 where
  pub server : ℕ
  pub command_valid : Bool
  pub command : V
  pub command_index : ℕ

unfoldable pub make_config : {V : Type 0} → ℕ → Config V
make_config n = record { logs = replicate n []; max_index = 0 }

abbrev pub is_some : {A : Type 0} → Option A → Bool
is_some none = false
is_some (some a) = true

-- `cfg.logs[i]`, for a server number in range.
abbrev pub log_of : {V : Type 0} → ℕ → List (Dict ℕ V) → Dict ℕ V
log_of i logs = elim (get_elem? logs i) [ none ↦ [] | some log ↦ log ]

module _ {V : Type 0} ⦃go : Eq V⦄ where
  -- `oldok && old != v`
  unfoldable pub differs : Option V → V → Bool
  differs none v = false
  differs (some old) v = not (old == v)

  -- Whether the loop over the servers sets `err_msg`.
  unfoldable pub conflicts : ℕ → V → List (Dict ℕ V) → Bool
  unfolding differs
  conflicts index v [] = false
  conflicts index v (log ∷ logs) = differs (lookup index log) v || conflicts index v logs

  unfoldable pub prev_ok : ℕ → Dict ℕ V → Bool
  prev_ok zero log = false
  prev_ok (suc k) log = is_some (lookup k log)

  -- Whether there is an error, `prevok`, and the configuration after that.
  unfoldable pub check_logs : Message V → Config V → (Bool × Bool) × Config V
  unfolding conflicts prev_ok
  check_logs m cfg =
      let log = log_of m.server cfg.logs in
      (
        (conflicts m.command_index m.command cfg.logs, prev_ok m.command_index log),
        record {
          logs = set cfg.logs m.server (insert m.command_index m.command log);
          max_index = if ltb cfg.max_index m.command_index then m.command_index else cfg.max_index;
        },
      )

  -- One message; `none` where `log.Fatalf` ends the test.
  unfoldable pub applier_step : Message V → Config V → Option (Config V)
  unfolding check_logs
  applier_step m cfg =
      if not m.command_valid
      then some cfg
      else (let checked = check_logs m cfg in
          if (ltb 1 m.command_index && not checked.0.1) || checked.0.0
          then none
          else some checked.1)

  -- The messages of all servers, in the order in which the appliers take the lock.
  unfoldable pub appliers : List (Message V) → Config V → Option (Config V)
  unfolding applier_step
  appliers [] cfg = some cfg
  appliers (m ∷ ms) cfg = elim (applier_step m cfg) [ none ↦ none | some cfg' ↦ appliers ms cfg' ]

  -- `count > 0 && cmd != cmd1`
  unfoldable pub clashes : ℕ → Option V → V → Bool
  unfolding differs
  clashes count cmd cmd1 = ltb 0 count && differs cmd cmd1

  unfoldable pub count_committed : ℕ → List (Dict ℕ V) → ℕ → Option V → Option (ℕ × Option V)
  unfolding clashes
  count_committed index [] count cmd = some (count, cmd)
  count_committed index (log ∷ logs) count cmd = elim (lookup index log) [
    | none ↦ count_committed index logs count cmd
    | some cmd1 ↦
        if clashes count cmd cmd1 then none else count_committed index logs (count + 1) (some cmd1)
  ]

  unfoldable pub n_committed : ℕ → Config V → Option (ℕ × Option V)
  unfolding count_committed
  n_committed index cfg = count_committed index cfg.logs 0 none
