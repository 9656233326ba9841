-- ===== src/Raft/Restart/Crash.antt =====
-- raft/config.go: crash1 and start1 keep the persisters apart.
use dist_kv_raft.Common.{
  ℕ, ◌==◌, nat_eq, Option, none, some, ◌≡◌, refl, sym, ap, ◌∙◌, subst, arith, inl, inr,
  Option-cases, Bool-cases, none≢some, [], Bytes,
}
use dist_kv_raft.Raft.Storage.{copy, make_persister, save, read_raft_state, read_snapshot}
use dist_kv_raft.Raft.Restart.{
  Disks, update, replace_saved, copy_saved, kill_raft, renew_saved, crash_disks, copy_or_make,
  make_raft, start_disks, instance_save, DiskEvent, saves, crashes, starts, disk_step, no_disks,
}
use dist_kv_raft.Raft.Restart.Apart.{
  IsApart, IsFree, busy, replace_saved-IsApart, replace_saved-IsFree, kill_raft-IsApart,
  killed_idle,
}

module _ (i : ℕ) (d : Disks) where
  pub copy_nil : d.saved i ≡ none → copy_saved i d ≡ d
  unfolding copy_saved
  copy_nil e = rw (copy_saved, e)

  pub copy-some :
      (p : ℕ) → d.saved i ≡ some p → copy_saved i d ≡ replace_saved i (copy (d.heap p)) d
  unfolding copy_saved
  copy-some p e = rw (copy_saved, e)

  pub renew_nil : d.saved i ≡ none → renew_saved i d ≡ d
  unfolding renew_saved
  renew_nil e = rw (renew_saved, e)

  pub renew_some :
      (p : ℕ)
      → d.saved i ≡ some p
      → renew_saved i d
        ≡ replace_saved i
            (save
              (read_raft_state (d.heap p))
              (read_snapshot (d.heap p))
              (record { raftstate = []; snapshot = [] }))
            d
  unfolding renew_saved
  renew_some p e = rw (renew_saved, e)

  pub make_nil : d.saved i ≡ none → copy_or_make i d ≡ replace_saved i make_persister d
  unfolding copy_or_make
  make_nil e = rw (copy_or_make, e)

  pub make_some :
      (p : ℕ) → d.saved i ≡ some p → copy_or_make i d ≡ replace_saved i (copy (d.heap p)) d
  unfolding copy_or_make
  make_some p e = rw (copy_or_make, e) (copy-some p e)

pub copied :
    (i : ℕ) (d : Disks)
    → IsApart none d
    → IsApart (some i) (copy_saved i d) × IsFree i (copy_saved i d)
copied i d a = elim (Option-cases (d.saved i)) [
  | inl e ↦
      subst (λ x. IsApart (some i) x × IsFree i x) (sym (copy_nil i d e))
        (busy i d a, λ r p held f. none≢some (sym e ∙ f))
  | inr (p, e) ↦
      subst (λ x. IsApart (some i) x × IsFree i x) (sym (copy-some i d p e))
        (
          replace_saved-IsApart (some i) i (copy (d.heap p)) d (λ r b c. b refl) (busy i d a),
          replace_saved-IsFree none i (copy (d.heap p)) d a,
        )
]

pub renewed :
    (i : ℕ) (d : Disks) → d.rafts i ≡ none → IsApart none d → IsApart none (renew_saved i d)
renewed i d idle a = elim (Option-cases (d.saved i)) [
  | inl e ↦ subst (IsApart none) (sym (renew_nil i d e)) a
  | inr (p, e) ↦ subst (IsApart none) (sym (renew_some i d p e)) (
      replace_saved-IsApart none i
        (save (read_raft_state (d.heap p)) (read_snapshot (d.heap p))
          (record { raftstate = []; snapshot = [] }))
        d (λ r b c. none≢some (sym idle ∙ c)) a)
]

pub renew_rafts : (i : ℕ) (d : Disks) → (renew_saved i d).rafts ≡ d.rafts
unfolding renew_saved replace_saved
renew_rafts i d = elim (Option-cases (d.saved i)) [
  | inl e ↦ ap (λ (x : Disks). x.rafts) (renew_nil i d e)
  | inr (p, e) ↦ ap (λ (x : Disks). x.rafts) (renew_some i d p e)
]

pub crash_disks-IsApart :
    (i : ℕ) (d : Disks)
    → IsApart none d
    → IsApart none (crash_disks i d) × ((crash_disks i d).rafts i ≡ none)
unfolding crash_disks
crash_disks-IsApart i d a =
    let (but, free) = copied i d a in
    let killed = kill_raft i (copy_saved i d) in
    let idle = killed_idle i (copy_saved i d) in
    (
      renewed i killed idle (kill_raft-IsApart i (copy_saved i d) free but),
      ap (λ (f : ℕ → Option ℕ). f i) (renew_rafts i killed) ∙ idle,
    )

pub remade :
    (i : ℕ) (d : Disks)
    → d.rafts i ≡ none
    → IsApart none d
    → IsApart none (copy_or_make i d) × IsFree i (copy_or_make i d)
remade i d idle a = elim (Option-cases (d.saved i)) [
  | inl e ↦
      subst (λ x. IsApart none x × IsFree i x) (sym (make_nil i d e))
        (
          replace_saved-IsApart none i make_persister d (λ r b c. none≢some (sym idle ∙ c)) a,
          replace_saved-IsFree none i make_persister d a,
        )
  | inr (p, e) ↦
      subst (λ x. IsApart none x × IsFree i x) (sym (make_some i d p e))
        (
          replace_saved-IsApart none i (copy (d.heap p)) d (λ r b c. none≢some (sym idle ∙ c)) a,
          replace_saved-IsFree none i (copy (d.heap p)) d a,
        )
]

make_raft-IsApart : (i : ℕ) (d : Disks) → IsFree i d → IsApart none d → IsApart none (make_raft i d)
unfolding make_raft
make_raft-IsApart i d free a = record {
  saved_below = a.saved_below;
  held_below = λ r p e. ground (arith, e, a.held_below r p, a.saved_below i p);
  distinct = a.distinct;
  only = λ r j p e f. elim (Bool-cases (d.count == r)) [
    | inl new ↦ let same = a.distinct i j p (ground (arith, e, new)) f in ground (arith, new, same)
    | inr old ↦ ground (arith, e, f, old, a.only r j p, free r p, ap d.saved {x = i} {y = j})
  ];
  owner = λ j r p b e f. elim (Bool-cases (i == j)) [
    | inl same ↦ ground (arith, e, f, same, ap d.saved {x = i} {y = j})
    | inr differs ↦ ground (arith, e, f, differs, a.owner j r p b, a.made j r)
  ];
  made = λ j r e. ground (arith, e, a.made j r);
  fresh = λ r past. ground (arith, past, a.fresh r);
}

pub start_disks-IsApart : (i : ℕ) (d : Disks) → IsApart none d → IsApart none (start_disks i d)
unfolding start_disks
start_disks-IsApart i d a =
    let (crashed, idle) = crash_disks-IsApart i d a in
    let (saved, free) = remade i (crash_disks i d) idle crashed in
    make_raft-IsApart i (copy_or_make i (crash_disks i d)) free saved

module _ (r : ℕ) (raftstate snapshot : Bytes) (d : Disks) where
  pub save_nil : (d.instances r).persister ≡ none → instance_save r raftstate snapshot d ≡ d
  unfolding instance_save
  save_nil e = rw (instance_save, e)

  pub save-some :
      (p : ℕ)
      → (d.instances r).persister ≡ some p
      → instance_save r raftstate snapshot d
        ≡ record d { heap = update d.heap p (save raftstate snapshot (d.heap p)) }
  unfolding instance_save
  save-some p e = rw (instance_save, e)

pub instance_save-IsApart :
    (r : ℕ) (raftstate snapshot : Bytes) (d : Disks)
    → IsApart none d
    → IsApart none (instance_save r raftstate snapshot d)
unfolding instance_save
instance_save-IsApart r raftstate snapshot d a = elim (Option-cases (d.instances r).persister) [
  | inl e ↦ subst (IsApart none) (sym (save_nil r raftstate snapshot d e)) a
  | inr (p, e) ↦ subst (IsApart none) (sym (save-some r raftstate snapshot d p e)) (record {
    saved_below = a.saved_below;
    held_below = a.held_below;
    distinct = a.distinct;
    only = a.only;
    owner = a.owner;
    made = a.made;
    fresh = a.fresh;
  })
]

pub disk_step-IsApart : (e : DiskEvent) (d : Disks) → IsApart none d → IsApart none (disk_step e d)
unfolding disk_step
disk_step-IsApart (saves r raftstate snapshot) d a = instance_save-IsApart r raftstate snapshot d a
disk_step-IsApart (crashes i) d a = (crash_disks-IsApart i d a).0
disk_step-IsApart (starts i) d a = start_disks-IsApart i d a

pub no_disks-IsApart : IsApart none no_disks
unfolding no_disks
no_disks-IsApart = record {
  saved_below = λ i p e. absurd (none≢some e);
  held_below = λ r p e. absurd (none≢some e);
  distinct = λ i j p e f. absurd (none≢some e);
  only = λ r i p e f. absurd (none≢some e);
  owner = λ i r p b e f. absurd (none≢some e);
  made = λ i r e. absurd (none≢some e);
  fresh = λ r past. refl;
}
