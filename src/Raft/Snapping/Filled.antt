-- ===== src/Raft/Snapping/Filled.antt =====
-- raft/config.go: applierSnap lets no server skip a command.
use dist_kv_raft.Common.{
  ℕ, ℤ, ◌+◌, ◌%◌, if_elim, if◌then◌else◌, ◌≤◌, ◌<◌, ◌==◌, Eq, nat_eq, Option, none, some, List, [],
  ◌∷◌, lookup, insert, lookup-insert, Bytes, get_elem?_below, set, length, ◌≡◌, refl, sym, ◌∙◌,
  subst, arith, inl, inr, Bool-cases, Option-cases, none≢some, some_inj,
}
use dist_kv_raft.Raft.Harness.{Message, log_of, check_logs}
use dist_kv_raft.Raft.Snapping.{
  snap_shot_interval, Snapping, SnapMessage, make_snapping, last_of, is_other, fill_log,
  ingest_snap, snap_if_due, apply_command, or_fatal, snap_step, snap_appliers,
}
use dist_kv_raft.Raft.Snapping.Restored.{
  lookup_fill_at, if_none_inv, after_command, apply_command_inv,
}
use dist_kv_raft.Raft.Snapping.Gapless.{IsFilled, replaced, start-IsFilled}

module _ {V : Type 0} ⦃go : Eq V⦄ (nil : V) (encode : ℕ → List V → Bytes)
    (decode : Bytes → Option (ℕ × List V)) where
  -- A snapshot that is delivered holds a command for every index up to its own, and the message is
  -- for one of the n servers.
  abbrev pub IsWhole : ℕ → SnapMessage V → Type 0
  IsWhole n m =
      (m.message.server < n)
      × ((bytes : Bytes) (last : ℕ) (xlog : List V)
          → m.snapshot ≡ some bytes
          → decode bytes ≡ some (last, xlog)
          → length xlog ≡ last + 1)

  abbrev pub AreWhole : ℕ → List (SnapMessage V) → Type 0
  AreWhole n [] = Unit
  AreWhole n (m ∷ ms) = IsWhole n m × AreWhole n ms

  snap_if_due-IsFilled :
      (n i index : ℕ) (s : Snapping V)
      → IsFilled n s
      → IsFilled n (snap_if_due nil encode decode i index s)
  unfolding snap_if_due
  snap_if_due-IsFilled n i index s f =
      if_elim (IsFilled n) ((index + 1) % snap_shot_interval == 0)
        (record { logs_n = f.logs_n; last_n = f.last_n; filled = f.filled }) f

  apply_command-IsFilled :
      (n : ℕ) (m : Message V) (s s' : Snapping V)
      → m.server < n
      → IsFilled n s
      → apply_command nil encode decode m s ≡ some s'
      → IsFilled n s'
  unfolding check_logs
  apply_command-IsFilled n m s s' lt f e =
      let (next, done) = apply_command_inv nil encode decode m s s' e in
      let log = log_of m.server s.base.logs in
      let index = m.command_index in
      subst (IsFilled n) done (
        snap_if_due-IsFilled n m.server index (after_command nil encode decode m s) (
          replaced n m.server index (insert index m.command log) s
            (after_command nil encode decode m s) lt f refl refl
            λ k pos low. elim (Bool-cases (index == k)) [
              | inl same ↦ (m.command, ground (arith, lookup-insert index k m.command log, same))
              | inr differs ↦
                  let (v, old) = f.filled m.server k lt pos (ground (arith, next, differs, low)) in
                  (v, ground (arith, lookup-insert index k m.command log, differs, old))
            ]))

  ingest_decoded :
      (i : ℕ) (bytes : Bytes) (index : ℤ) (s : Snapping V) (last : ℕ) (xlog : List V)
      → decode bytes ≡ some (last, xlog)
      → or_fatal (ingest_snap nil encode decode i (some bytes) index s) ≡ (
          if is_other index last
          then none
          else some (record s {
            base = record s.base { logs = set s.base.logs i (fill_log 0 xlog []) };
            last_applied = set s.last_applied i last;
          }))
  unfolding ingest_snap
  ingest_decoded i bytes index s last xlog e = elim (Bool-cases (is_other index last)) [
    | inl o ↦ rw (ingest_snap, e, o)
    | inr o ↦ rw (ingest_snap, e, o)
  ]

  ingest_undecoded :
      (i : ℕ) (bytes : Bytes) (index : ℤ) (s : Snapping V)
      → decode bytes ≡ none
      → or_fatal (ingest_snap nil encode decode i (some bytes) index s) ≡ none
  unfolding ingest_snap
  ingest_undecoded i bytes index s e = rw (ingest_snap, e)

  ingest-IsFilled :
      (n i : ℕ) (snapshot : Option Bytes) (index : ℤ) (s s' : Snapping V)
      → i < n
      → ((bytes : Bytes) (last : ℕ) (xlog : List V)
          → snapshot ≡ some bytes
          → decode bytes ≡ some (last, xlog)
          → length xlog ≡ last + 1)
      → IsFilled n s
      → or_fatal (ingest_snap nil encode decode i snapshot index s) ≡ some s'
      → IsFilled n s'
  unfolding ingest_snap
  ingest-IsFilled n i none index s s' lt whole f e = absurd (none≢some e)
  ingest-IsFilled n i (some bytes) index s s' lt whole f e = elim (Option-cases (decode bytes)) [
    | inl bad ↦ absurd (none≢some (sym (ingest_undecoded i bytes index s bad) ∙ e))
    | inr ((last, xlog), good) ↦
        let given = record s {
          base = record s.base { logs = set s.base.logs i (fill_log 0 xlog []) };
          last_applied = set s.last_applied i last;
        } in
        let (own, same) =
          if_none_inv (is_other index last) given s'
            (sym (ingest_decoded i bytes index s last xlog good) ∙ e) in
        subst (IsFilled n) same (
          replaced n i last (fill_log 0 xlog []) s given lt f refl refl λ k pos low.
            let (v, at) = get_elem?_below xlog k (omega (arith, whole bytes last xlog refl good)) in
            (v, lookup_fill_at k 0 k v xlog [] (omega arith) at))
  ]

  snap_step-IsFilled :
      (n : ℕ) (m : SnapMessage V) (s s' : Snapping V)
      → IsWhole n m
      → IsFilled n s
      → snap_step nil encode decode m s ≡ some s'
      → IsFilled n s'
  unfolding snap_step
  snap_step-IsFilled n m s s' whole f e = elim (Bool-cases m.snapshot_valid) [
    | inl snap ↦
        ingest-IsFilled n m.message.server m.snapshot m.snapshot_index s s' whole.0 whole.1 f
          (ground (arith, e, snap))
    | inr command ↦ elim (Bool-cases m.message.command_valid) [
      | inl valid ↦
          apply_command-IsFilled n m.message s s' whole.0 f (ground (arith, e, command, valid))
      | inr other ↦ subst (IsFilled n) (ground (arith, e, command, other)) f
    ]
  ]

  run-IsFilled :
      (n : ℕ) (ms : List (SnapMessage V)) (s s' : Snapping V)
      → AreWhole n ms
      → IsFilled n s
      → snap_appliers nil encode decode ms s ≡ some s'
      → IsFilled n s'
  unfolding snap_appliers
  run-IsFilled n [] s s' whole f e = subst (IsFilled n) (some_inj e) f
  run-IsFilled n (m ∷ ms) s s' whole f e = elim (Option-cases (snap_step nil encode decode m s)) [
    | inl bad ↦ ground (arith, bad, e, none≢some {a = s'})
    | inr (s1, step) ↦
        run-IsFilled n ms s1 s' whole.1 (snap_step-IsFilled n m s s1 whole.0 f step)
          (ground (arith, step, e))
  ]

  -- Let n servers start with applierSnap, and let every snapshot that is delivered hold a command
  -- for each index up to its own. While no error ends the test, each server's log has a command at
  -- every index from 1 to the last that it has applied, be it from messages or from snapshots.
  pub snap_appliers_fill :
      (n : ℕ) (ms : List (SnapMessage V)) (s : Snapping V) (i k : ℕ)
      → AreWhole n ms
      → snap_appliers nil encode decode ms (make_snapping n) ≡ some s
      → i < n
      → 0 < k
      → k ≤ last_of i s.last_applied
      → (v : V) × (lookup k (log_of i s.base.logs) ≡ some v)
  snap_appliers_fill n ms s i k whole run lt pos low =
      (run-IsFilled n ms (make_snapping n) s whole (start-IsFilled n) run).filled i k lt pos low
