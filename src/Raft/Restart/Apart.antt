-- ===== src/Raft/Restart/Apart.antt =====
-- raft/config.go: no two servers and no old peer share a persister.
use dist_kv_raft.Common.{
  ℕ, ◌≤◌, ◌<◌, ◌==◌, nat_eq, Option, none, some, ◌≡◌, ◌≢◌, sym, ap, ◌∙◌, subst, arith, inl, inr,
  Option-cases, Bool-cases, none≢some, some_inj, false, true, beq_refl,
}
use dist_kv_raft.Raft.Storage.{Persister}
use dist_kv_raft.Raft.Restart.{Disks, update, replace_saved, kill_raft}

-- A persister of `cfg.saved` belongs to one server, and of the peers only to the current one of the
-- server; the server `but` may have a current peer with another one.
pub record IsApart (but : Option ℕ) (d : Disks) : Type 0 where
  pub saved_below : (i p : ℕ) → d.saved i ≡ some p → p < d.next
  pub held_below : (r p : ℕ) → (d.instances r).persister ≡ some p → p < d.next
  pub distinct : (i j p : ℕ) → d.saved i ≡ some p → d.saved j ≡ some p → i ≡ j
  pub only :
      (r i p : ℕ) → (d.instances r).persister ≡ some p → d.saved i ≡ some p → d.rafts i ≡ some r
  pub owner :
      (i r p : ℕ)
      → but ≢ some i
      → d.rafts i ≡ some r
      → d.saved i ≡ some p
      → (d.instances r).persister ≡ some p
  pub made : (i r : ℕ) → d.rafts i ≡ some r → r < d.count
  pub fresh : (r : ℕ) → d.count ≤ r → (d.instances r).persister ≡ none

-- No peer holds the persister of server `i`.
abbrev pub IsFree : ℕ → Disks → Type 0
IsFree i d = (r p : ℕ) → (d.instances r).persister ≡ some p → ¬ (d.saved i ≡ some p)

pub replace_saved-IsApart :
    (but : Option ℕ) (i : ℕ) (ps : Persister) (d : Disks)
    → ((r : ℕ) → but ≢ some i → ¬ (d.rafts i ≡ some r))
    → IsApart but d
    → IsApart but (replace_saved i ps d)
unfolding replace_saved
replace_saved-IsApart but i ps d idle a = record {
  saved_below = λ j p e. ground (arith, e, a.saved_below j p);
  held_below = λ r p e. ground (arith, e, a.held_below r p);
  distinct =
      λ j k p e f. ground (arith, e, f, a.distinct j k p, a.saved_below j p, a.saved_below k p);
  only = λ r j p e f. ground (arith, e, f, a.only r j p, a.held_below r p);
  owner = λ j r p b e f. ground (
    arith,
    e,
    f,
    idle r,
    a.owner j r p b,
    ap d.rafts {x = i} {y = j},
    ap (λ k. some k) {x = i} {y = j},
    b,
  );
  made = a.made;
  fresh = a.fresh;
}

pub replace_saved-IsFree :
    (but : Option ℕ) (i : ℕ) (ps : Persister) (d : Disks)
    → IsApart but d
    → IsFree i (replace_saved i ps d)
unfolding replace_saved
replace_saved-IsFree but i ps d a r p e f = ground (arith, e, f, a.held_below r p)

pub busy : (i : ℕ) (d : Disks) → IsApart none d → IsApart (some i) d
busy i d a = record {
  saved_below = a.saved_below;
  held_below = a.held_below;
  distinct = a.distinct;
  only = a.only;
  owner = λ j r p b e f. a.owner j r p none≢some e f;
  made = a.made;
  fresh = a.fresh;
}

pub kill_idle : (i : ℕ) (d : Disks) → d.rafts i ≡ none → kill_raft i d ≡ d
unfolding kill_raft
kill_idle i d e = rw (kill_raft, e)

abbrev pub killed_disks : ℕ → ℕ → Disks → Disks
killed_disks i r d = record d {
  instances = update d.instances r (record (d.instances r) { dead = true });
  rafts = update d.rafts i none;
}

pub kill_current : (i r : ℕ) (d : Disks) → d.rafts i ≡ some r → kill_raft i d ≡ killed_disks i r d
unfolding kill_raft
kill_current i r d e = rw (kill_raft, e)

unlike : (i j : ℕ) → (i == j) ≡ false → some i ≢ some j
unlike i j f e = ground (arith, f, some_inj e)

killed-IsApart :
    (i r : ℕ) (d : Disks) → IsFree i d → IsApart (some i) d → IsApart none (killed_disks i r d)
killed-IsApart i r d free a = record {
  saved_below = a.saved_below;
  held_below = λ q p e.
      ground (arith, e, a.held_below q p, a.held_below r p, ap d.instances {x = r} {y = q});
  distinct = a.distinct;
  only = λ q j p e f. elim (Bool-cases (i == j)) [
    | inl same ↦ ground (arith, e, f, same, free q p, free r p, ap d.saved {x = i} {y = j})
    | inr differs ↦
        ground (arith, e, f, differs, a.only q j p, a.only r j p, ap d.instances {x = r} {y = q})
  ];
  owner = λ j q p b e f. elim (Bool-cases (i == j)) [
    | inl same ↦ ground (arith, e, same)
    | inr differs ↦
        let old = a.owner j q p (unlike i j differs) (ground (arith, e, differs)) f in
        ground (arith, old, ap d.instances {x = r} {y = q})
  ];
  made = λ j q e. ground (arith, e, a.made j q);
  fresh = λ q past. ground (arith, past, a.fresh q, a.fresh r, ap d.instances {x = r} {y = q});
}

no_longer_busy : (i : ℕ) (d : Disks) → d.rafts i ≡ none → IsApart (some i) d → IsApart none d
no_longer_busy i d idle a = record {
  saved_below = a.saved_below;
  held_below = a.held_below;
  distinct = a.distinct;
  only = a.only;
  owner = λ j q p b e f. elim (Bool-cases (i == j)) [
    | inl same ↦ ground (arith, e, idle, same, ap d.rafts {x = i} {y = j})
    | inr differs ↦ a.owner j q p (unlike i j differs) e f
  ];
  made = a.made;
  fresh = a.fresh;
}

pub kill_raft-IsApart :
    (i : ℕ) (d : Disks) → IsFree i d → IsApart (some i) d → IsApart none (kill_raft i d)
kill_raft-IsApart i d free a = elim (Option-cases (d.rafts i)) [
  | inl idle ↦ subst (IsApart none) (sym (kill_idle i d idle)) (no_longer_busy i d idle a)
  | inr (r, current) ↦
      subst (IsApart none) (sym (kill_current i r d current)) (killed-IsApart i r d free a)
]

pub killed_idle : (i : ℕ) (d : Disks) → (kill_raft i d).rafts i ≡ none
unfolding kill_raft
killed_idle i d = elim (Option-cases (d.rafts i)) [
  | inl idle ↦ ap (λ (x : Disks). x.rafts i) (kill_idle i d idle) ∙ idle
  | inr (r, current) ↦
      ap (λ (x : Disks). x.rafts i) (kill_current i r d current) ∙ ground (arith, beq_refl i)
]
