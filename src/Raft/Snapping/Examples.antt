-- ===== src/Raft/Snapping/Examples.antt =====
-- Two servers; a snapshot is its index and then its commands.
use dist_kv_raft.Common.{
  ℕ, ◌+◌, ltb, if◌then◌else◌, true, false, pos, negsuc, Option, none, some, List, [], ◌∷◌, ◌++◌,
  Bytes, lookup, insert, length, nat_eq, ◌≡◌, refl, sym, ap, subst, arith, none≢some, some_inj,
}
use dist_kv_raft.Raft.Harness.{Config, Message, log_of, check_logs, conflicts, differs, prev_ok}
use dist_kv_raft.Raft.Snapping.{
  Snapping, SnapMessage, ingested, make_snapping, last_of, command_at, ingest_snap, apply_command,
  snap_step, snap_appliers, commands_from,
}
use dist_kv_raft.Raft.Snapping.Restored.{snapshot_restores}
use dist_kv_raft.Raft.Snapping.Filled.{AreWhole, snap_appliers_fill}

abbrev encode : ℕ → List ℕ → Bytes
encode index xlog = index ∷ xlog

abbrev decode : Bytes → Option (ℕ × List ℕ)
decode [] = none
decode (index ∷ xlog) = some (index, xlog)

abbrev ninth : Message ℕ
ninth = record { server = 0; command_valid = true; command = 90; command_index = 9 }

abbrev eighth : Config ℕ
eighth = record { logs = ((8, 80) ∷ []) ∷ [] ∷ []; max_index = 8 }

abbrev before : Snapping ℕ
before = record { base = eighth; last_applied = 8 ∷ 0 ∷ []; calls = [] }

abbrev after : Snapping ℕ
after = record {
  base = record { logs = ((8, 80) ∷ (9, 90) ∷ []) ∷ [] ∷ []; max_index = 9 };
  last_applied = 9 ∷ 0 ∷ [];
  calls =
      record { caller = 0; index = 9; bytes = 9 ∷ 0 ∷ 0 ∷ 0 ∷ 0 ∷ 0 ∷ 0 ∷ 0 ∷ 0 ∷ 80 ∷ 90 ∷ [] }
      ∷ [];
}

applies_ninth : apply_command 0 encode decode ninth before ≡ some after
unfolding apply_command check_logs conflicts differs prev_ok lookup insert commands_from
applies_ninth = refl

snapshot_restores_example :
    (bytes : Bytes) × (restored : Snapping ℕ) × (after.calls
      ≡ before.calls ++ record { caller = 0; index = 9; bytes = bytes } ∷ [])
    × (ingest_snap 0 encode decode 1 (some bytes) (pos 9) before ≡ ingested restored)
    × (ingest_snap 0 encode decode 1 (some bytes) (negsuc 0) before ≡ ingested restored)
    × (last_of 1 restored.last_applied ≡ 9)
    × ((k : ℕ)
        → lookup k (log_of 1 restored.base.logs)
          ≡ (if ltb k (9 + 1) then some (command_at 0 k (log_of 0 after.base.logs)) else none))
snapshot_restores_example =
    snapshot_restores 0 encode decode ninth before after before 1 (λ index xlog. refl) applies_ninth
      refl (omega arith) (omega arith)

abbrev command_message : ℕ → ℕ → SnapMessage ℕ
command_message index command = record {
  message = record { server = 1; command_valid = true; command = command; command_index = index };
  snapshot_valid = false;
  snapshot = none;
  snapshot_index = pos 0;
}

abbrev snapshot_message : SnapMessage ℕ
snapshot_message = record {
  message = record { server = 1; command_valid = false; command = 0; command_index = 0 };
  snapshot_valid = true;
  snapshot = some (2 ∷ 0 ∷ 70 ∷ 75 ∷ []);
  snapshot_index = pos 2;
}

abbrev messages : List (SnapMessage ℕ)
messages = snapshot_message ∷ command_message 3 80 ∷ []

abbrev caught_up : Snapping ℕ
caught_up = record {
  base = record { logs = [] ∷ ((0, 0) ∷ (1, 70) ∷ (2, 75) ∷ (3, 80) ∷ []) ∷ []; max_index = 3 };
  last_applied = 0 ∷ 3 ∷ [];
  calls = [];
}

catches_up : snap_appliers 0 encode decode messages (make_snapping 2) ≡ some caught_up
unfolding snap_appliers snap_step ingest_snap apply_command check_logs conflicts differs prev_ok
    lookup insert make_snapping
catches_up = refl

-- A command that is not the next one ends the test.
skipped_command : snap_step 0 encode decode (command_message 5 80) caught_up ≡ none
unfolding snap_step apply_command check_logs conflicts differs prev_ok lookup
skipped_command = refl

messages-AreWhole : AreWhole 0 encode decode 2 messages
messages-AreWhole = (
  (
    omega arith,
    λ bytes last xlog e d.
        let d' = some_inj (subst (λ b. decode b ≡ some (last, xlog)) (sym (some_inj e)) d) in
        ground (arith, ap (λ (p : ℕ × List ℕ). length p.1) d', ap (λ (p : ℕ × List ℕ). p.0) d'),
  ),
  ((omega arith, λ bytes last xlog e d. absurd (none≢some e)), tt),
)

snap_appliers_fill_example : (v : ℕ) × (lookup 2 (log_of 1 caught_up.base.logs) ≡ some v)
snap_appliers_fill_example =
    snap_appliers_fill 0 encode decode 2 messages caught_up 1 2 messages-AreWhole catches_up
      (omega arith) (omega arith) (omega arith)
