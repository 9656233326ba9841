-- ===== src/Raft/Restart/Stable.antt =====
-- raft/config.go: what `cfg.saved` promises. A server has one stable state, which only its current
-- peer writes.
use dist_kv_raft.Common.{
  ℕ, suc, ◌==◌, nat_eq, nat_beq_iff, beq_refl, if◌then◌else◌, Bool, true, false, Option, none, some,
  List, [], ◌∷◌, Bytes, ◌≡◌, refl, ap, ◌∙◌, subst, arith, inl, inr, Option-cases, Bool-cases,
  none≢some,
}
use dist_kv_raft.Raft.Storage.{
  Persister, copy, make_persister, save, read_raft_state, read_snapshot,
}
use dist_kv_raft.Raft.Restart.{
  Disks, update, replace_saved, copy_saved, kill_raft, renew_saved, crash_disks, copy_or_make,
  make_raft, start_disks, instance_save, DiskEvent, saves, crashes, starts,
}
use dist_kv_raft.Raft.Restart.Apart.{IsApart, kill_raft-IsApart, kill_idle, kill_current}
use dist_kv_raft.Raft.Restart.Crash.{
  copy_nil, copy-some, renew_nil, renew_some, make_nil, make_some, save_nil, save-some, copied,
  crash_disks-IsApart,
}

-- The stable state of each server, if it has been started, its current peer, and the number of
-- peers made so far.
pub record Stable : Type 0 where
  pub state : ℕ → Option Persister
  pub current : ℕ → Option ℕ
  pub made : ℕ

abbrev pub no_stable : Stable
no_stable = record { state = λ i. none; current = λ i. none; made = 0 }

abbrev pub is_peer : Option ℕ → ℕ → Bool
is_peer none r = false
is_peer (some q) r = q == r

abbrev pub saved_state : Bytes → Bytes → Option Persister → Option Persister
saved_state raftstate snapshot none = none
saved_state raftstate snapshot (some ps) =
    some (record { raftstate = raftstate; snapshot = snapshot })

abbrev pub started_state : Option Persister → Option Persister
started_state none = some (record { raftstate = []; snapshot = [] })
started_state (some ps) = some ps

-- A save counts if the peer is the current one of a server; a crash loses the peer and no state.
abbrev pub stable_step : DiskEvent → Stable → Stable
stable_step (saves r raftstate snapshot) s = record s {
  state = λ i.
      if is_peer (s.current i) r then saved_state raftstate snapshot (s.state i) else s.state i;
}
stable_step (crashes i) s = record s { current = update s.current i none }
stable_step (starts i) s = record s {
  state = update s.state i (started_state (s.state i));
  current = update s.current i (some s.made);
  made = suc s.made;
}

abbrev pub run_stable : List DiskEvent → Stable → Stable
run_stable [] s = s
run_stable (e ∷ es) s = run_stable es (stable_step e s)

-- What a start would hand to the server's next peer.
abbrev pub disk_of : ℕ → Disks → Option Persister
disk_of i d = elim (d.saved i) [ none ↦ none | some p ↦ some (d.heap p) ]

module _ (but : Option ℕ) (i : ℕ) (d : Disks) (a : IsApart but d) where
  disk_of-replace :
      (j : ℕ) (ps : Persister)
      → disk_of j (replace_saved i ps d) ≡ (if i == j then some ps else disk_of j d)
  unfolding replace_saved
  disk_of-replace j ps = elim (Bool-cases (i == j)) [
    | inl same ↦ ground (arith, same)
    | inr differs ↦ elim (Option-cases (d.saved j)) [
      | inl e ↦ ground (arith, differs, e)
      | inr (p, e) ↦ ground (arith, differs, e, a.saved_below j p e)
    ]
  ]

  disk_of-replace_same :
      (j p : ℕ) (ps : Persister)
      → d.saved i ≡ some p
      → ps ≡ d.heap p
      → disk_of j (replace_saved i ps d) ≡ disk_of j d
  disk_of-replace_same j p ps e same = elim (Bool-cases (i == j)) [
    | inl here ↦
        let own : i ≡ j = (nat_beq_iff i j).0 here in
        let held : disk_of j d ≡ some (d.heap p) =
          subst (λ k. disk_of k d ≡ some (d.heap p)) own (ground (arith, e)) in
        disk_of-replace j ps ∙ ground (arith, here, same, held)
    | inr there ↦ disk_of-replace j ps ∙ ground (arith, there)
  ]

  pub disk_of-copy : (j : ℕ) → disk_of j (copy_saved i d) ≡ disk_of j d
  unfolding copy make_persister
  disk_of-copy j = elim (Option-cases (d.saved i)) [
    | inl e ↦ ap (disk_of j) (copy_nil i d e)
    | inr (p, e) ↦
        ap (disk_of j) (copy-some i d p e) ∙ disk_of-replace_same j p (copy (d.heap p)) e refl
  ]

  disk_of-renew : (j : ℕ) → disk_of j (renew_saved i d) ≡ disk_of j d
  unfolding save read_raft_state read_snapshot
  disk_of-renew j = elim (Option-cases (d.saved i)) [
    | inl e ↦ ap (disk_of j) (renew_nil i d e)
    | inr (p, e) ↦
        ap (disk_of j) (renew_some i d p e)
        ∙ disk_of-replace_same j p
            (save (read_raft_state (d.heap p)) (read_snapshot (d.heap p))
              (record { raftstate = []; snapshot = [] }))
            e refl
  ]

  pub disk_of-make :
      (j : ℕ)
      → disk_of j (copy_or_make i d) ≡ update (λ k. disk_of k d) i (started_state (disk_of i d)) j
  unfolding copy make_persister
  disk_of-make j = elim (Option-cases (d.saved i)) [
    | inl e ↦ ap (disk_of j) (make_nil i d e) ∙ disk_of-replace j make_persister ∙ ground (arith, e)
    | inr (p, e) ↦
        ap (disk_of j) (make_some i d p e) ∙ disk_of-replace j (copy (d.heap p)) ∙ ground (arith, e)
  ]

pub disk_of-kill : (j i : ℕ) (d : Disks) → disk_of j (kill_raft i d) ≡ disk_of j d
disk_of-kill j i d = elim (Option-cases (d.rafts i)) [
  | inl idle ↦ ap (disk_of j) (kill_idle i d idle)
  | inr (r, current) ↦ ap (disk_of j) (kill_current i r d current)
]

pub disk_of-crash :
    (j i : ℕ) (d : Disks) → IsApart none d → disk_of j (crash_disks i d) ≡ disk_of j d
unfolding crash_disks
disk_of-crash j i d a =
    let (but, free) = copied i d a in
    let killed = kill_raft-IsApart i (copy_saved i d) free but in
    disk_of-renew none i (kill_raft i (copy_saved i d)) killed j
    ∙ disk_of-kill j i (copy_saved i d)
    ∙ disk_of-copy none i d a j

pub disk_of-start :
    (j i : ℕ) (d : Disks)
    → IsApart none d
    → disk_of j (start_disks i d) ≡ update (λ k. disk_of k d) i (started_state (disk_of i d)) j
unfolding start_disks make_raft
disk_of-start j i d a =
    let (crashed, idle) = crash_disks-IsApart i d a in
    disk_of-make none i (crash_disks i d) crashed j
    ∙ ground (arith, disk_of-crash j i d a, disk_of-crash i i d a)

peer_inv : (o : Option ℕ) (r : ℕ) → is_peer o r ≡ true → o ≡ some r
peer_inv none r e = ground (arith, e)
peer_inv (some q) r e = ap some ((nat_beq_iff q r).0 e)

peer_is : (o : Option ℕ) (r : ℕ) → o ≡ some r → is_peer o r ≡ true
peer_is o r e = ap (λ x. is_peer x r) e ∙ beq_refl r

not_peer :
    (j r p q : ℕ) (d : Disks)
    → IsApart none d
    → is_peer (d.rafts j) r ≡ false
    → d.saved j ≡ some p
    → (d.instances r).persister ≡ some q
    → (q == p) ≡ false
not_peer j r p q d a old e held = elim (Bool-cases (q == p)) [
  | inl same ↦
      let here = held ∙ ap some ((nat_beq_iff q p).0 same) in
      ground (arith, old, peer_is (d.rafts j) r (a.only r j p here e))
  | inr differs ↦ differs
]

pub disk_of-save :
    (j r : ℕ) (raftstate snapshot : Bytes) (d : Disks)
    → IsApart none d
    → disk_of j (instance_save r raftstate snapshot d) ≡ (
        if is_peer (d.rafts j) r then saved_state raftstate snapshot (disk_of j d) else disk_of j d)
unfolding save
disk_of-save j r raftstate snapshot d a = elim (Option-cases (d.saved j)) [
  | inl e ↦ elim (Option-cases (d.instances r).persister) [
    | inl held ↦ ap (disk_of j) (save_nil r raftstate snapshot d held) ∙ ground (arith, e)
    | inr (q, held) ↦ ap (disk_of j) (save-some r raftstate snapshot d q held) ∙ ground (arith, e)
  ]
  | inr (p, e) ↦ elim (Bool-cases (is_peer (d.rafts j) r)) [
    | inl current ↦
        let held = a.owner j r p none≢some (peer_inv (d.rafts j) r current) e in
        ap (disk_of j) (save-some r raftstate snapshot d p held)
        ∙ ground (arith, e, current, beq_refl p)
    | inr old ↦ elim (Option-cases (d.instances r).persister) [
      | inl held ↦ ap (disk_of j) (save_nil r raftstate snapshot d held) ∙ ground (arith, old)
      | inr (q, held) ↦
          ap (disk_of j) (save-some r raftstate snapshot d q held)
          ∙ ground (arith, e, old, not_peer j r p q d a old e held)
    ]
  ]
]

pub raft_of-save :
    (j r : ℕ) (raftstate snapshot : Bytes) (d : Disks)
    → ((instance_save r raftstate snapshot d).rafts j ≡ d.rafts j)
      × ((instance_save r raftstate snapshot d).count ≡ d.count)
raft_of-save j r raftstate snapshot d = elim (Option-cases (d.instances r).persister) [
  | inl held ↦
      let same = save_nil r raftstate snapshot d held in
      (ap (λ (x : Disks). x.rafts j) same, ap (λ (x : Disks). x.count) same)
  | inr (q, held) ↦
      let same = save-some r raftstate snapshot d q held in
      (ap (λ (x : Disks). x.rafts j) same, ap (λ (x : Disks). x.count) same)
]
