-- ===== src/Raft/Snapping.antt =====
-- raft/config.go: applierSnap and ingestSnap. Encoding and decoding a snapshot are parameters, and
-- so is `nil`, the command that a map gives for an index it does not have. The texts of the errors
-- are left out; an applier starts when its peer has been made.
pub mod Restored
pub mod Gapless
pub mod Filled
mod Examples
use dist_kv_raft.Common.{
  ℕ, zero, suc, ◌+◌, ◌%◌, ℤ, pos, negsuc, ltb, ◌==◌, Eq, nat_eq, if◌then◌else◌, Bool, true, false,
  not, ◌&&◌, ◌||◌, Option, none, some, List, [], ◌∷◌, ◌++◌, Dict, lookup, insert, Bytes, get_elem?,
  set, replicate,
}
use dist_kv_raft.Raft.Harness.{Config, Message, make_config, log_of, check_logs}

-- A call of `rf.Snapshot` on the peer of a server.
pub record SnapshotCall : Type 0 where
  pub caller : ℕ
  pub index : ℕ
  pub bytes : Bytes

-- What the appliers change, and the calls that they make.
pub record Snapping (V : Type 0) : Type 0 where
  pub base : Config V
  pub last_applied : List ℕ
  pub calls : List SnapshotCall

-- An ApplyMsg on the channel of a server; a nil snapshot is `none`.
pub record SnapMessage (V : Type 0) : Type 0 where
  pub message : Message V
  pub snapshot_valid : Bool
  pub snapshot : Option Bytes
  pub snapshot_index : ℤ

pub data Ingested (V : Type 0) : Type 0 where
  exits : Ingested V
  mismatch : Ingested V
  ingested : Snapping V → Ingested V

abbrev pub snap_shot_interval : ℕ
snap_shot_interval = 10

unfoldable pub make_snapping : {V : Type 0} → ℕ → Snapping V
unfolding make_config
make_snapping n = record { base = make_config n; last_applied = replicate n 0; calls = [] }

abbrev pub last_of : ℕ → List ℕ → ℕ
last_of i last_applied = elim (get_elem? last_applied i) [ none ↦ 0 | some index ↦ index ]

-- `index != -1 && index != lastIncludedIndex`
abbrev pub is_other : ℤ → ℕ → Bool
is_other (pos index) last = not (index == last)
is_other (negsuc zero) last = false
is_other (negsuc (suc n)) last = true

-- The loop that fills the new log, from index `j` on.
unfoldable pub fill_log : {V : Type 0} → ℕ → List V → Dict ℕ V → Dict ℕ V
fill_log j [] log = log
fill_log j (command ∷ xlog) log = fill_log (suc j) xlog (insert j command log)

abbrev pub or_fatal : {V : Type 0} → Ingested V → Option (Snapping V)
or_fatal exits = none
or_fatal mismatch = none
or_fatal (ingested s) = some s

module _ {V : Type 0} (nil : V) where
  abbrev pub command_at : ℕ → Dict ℕ V → V
  command_at j log = elim (lookup j log) [ none ↦ nil | some command ↦ command ]

  -- `xlog`: the commands at `count` indices, from `j` on.
  unfoldable pub commands_from : ℕ → ℕ → Dict ℕ V → List V
  unfolding lookup
  commands_from j zero log = []
  commands_from j (suc count) log = command_at j log ∷ commands_from (suc j) count log

module _ {V : Type 0} ⦃go : Eq V⦄ (nil : V) (encode : ℕ → List V → Bytes)
    (decode : Bytes → Option (ℕ × List V)) where
  unfoldable pub ingest_snap : ℕ → Option Bytes → ℤ → Snapping V → Ingested V
  unfolding fill_log
  ingest_snap i none index s = exits
  ingest_snap i (some snapshot) index s = elim (decode snapshot) [
    | none ↦ exits
    | some (last_included, xlog) ↦
        if is_other index last_included
        then mismatch
        else ingested (record s {
          base = record s.base { logs = set s.base.logs i (fill_log 0 xlog []) };
          last_applied = set s.last_applied i last_included;
        })
  ]

  -- After a command: a snapshot is due at every tenth one.
  unfoldable pub snap_if_due : ℕ → ℕ → Snapping V → Snapping V
  unfolding commands_from
  snap_if_due i index s =
      if (index + 1) % snap_shot_interval == 0
      then record s {
        calls =
            s.calls
            ++ record {
              caller = i;
              index = index;
              bytes = encode index (commands_from nil 0 (index + 1) (log_of i s.base.logs));
            }
              ∷ [];
      }
      else s

  -- A command; `none` where `log.Fatalf` ends the test.
  unfoldable pub apply_command : Message V → Snapping V → Option (Snapping V)
  unfolding check_logs snap_if_due
  apply_command m s =
      let checked = check_logs m s.base in
      if not (m.command_index == last_of m.server s.last_applied + 1)
        || (checked.0.0 || (ltb 1 m.command_index && not checked.0.1))
      then none
      else some (
          snap_if_due m.server m.command_index (record s {
            base = checked.1;
            last_applied = set s.last_applied m.server m.command_index;
          }))

  -- One message of `applierSnap`.
  unfoldable pub snap_step : SnapMessage V → Snapping V → Option (Snapping V)
  unfolding ingest_snap apply_command
  snap_step m s =
      if m.snapshot_valid
      then or_fatal (ingest_snap m.message.server m.snapshot m.snapshot_index s)
      else if m.message.command_valid
      then apply_command m.message s
      else some s

  -- The messages of all servers, in the order in which they are handled.
  unfoldable pub snap_appliers : List (SnapMessage V) → Snapping V → Option (Snapping V)
  unfolding snap_step
  snap_appliers [] s = some s
  snap_appliers (m ∷ ms) s = elim (snap_step m s) [ none ↦ none | some s' ↦ snap_appliers ms s' ]
