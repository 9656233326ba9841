-- ===== src/Raft/Restart/Refined.antt =====
-- raft/config.go: the persisters refine one stable state for each server.
use dist_kv_raft.Common.{
  ℕ, suc, ◌==◌, nat_eq, nat_beq_iff, Option, none, some, List, [], ◌∷◌, ◌≡◌, refl, sym, ap, ◌∙◌,
  subst, arith, inl, inr, Option-cases, Bool-cases,
}
use dist_kv_raft.Raft.Restart.{
  Disks, update, replace_saved, copy_saved, kill_raft, renew_saved, crash_disks, copy_or_make,
  make_raft, start_disks, DiskEvent, saves, crashes, starts, disk_step, run_disks, no_disks,
}
use dist_kv_raft.Raft.Restart.Apart.{IsApart, kill_idle, kill_current}
use dist_kv_raft.Raft.Restart.Crash.{
  copy_nil, copy-some, renew_nil, renew_some, make_nil, make_some, disk_step-IsApart,
  no_disks-IsApart,
}
use dist_kv_raft.Raft.Restart.Stable.{
  Stable, no_stable, stable_step, run_stable, disk_of, disk_of-save, disk_of-crash, disk_of-start,
  raft_of-save,
}

-- The peers and their number are as before.
abbrev SamePeers : Disks → Disks → Type 0
SamePeers d e = (e.rafts ≡ d.rafts) × (e.count ≡ d.count)

same_of : (d e f : Disks) → e ≡ f → SamePeers d f → SamePeers d e
same_of d e f same s = subst (SamePeers d) (sym same) s

module _ (i : ℕ) (d : Disks) where
  copy_keeps : SamePeers d (copy_saved i d)
  unfolding replace_saved
  copy_keeps = elim (Option-cases (d.saved i)) [
    | inl e ↦ same_of d (copy_saved i d) d (copy_nil i d e) (refl, refl)
    | inr (p, e) ↦ same_of d (copy_saved i d) _ (copy-some i d p e) (refl, refl)
  ]

  renew_keeps : SamePeers d (renew_saved i d)
  unfolding replace_saved
  renew_keeps = elim (Option-cases (d.saved i)) [
    | inl e ↦ same_of d (renew_saved i d) d (renew_nil i d e) (refl, refl)
    | inr (p, e) ↦ same_of d (renew_saved i d) _ (renew_some i d p e) (refl, refl)
  ]

  make_keeps : SamePeers d (copy_or_make i d)
  unfolding replace_saved
  make_keeps = elim (Option-cases (d.saved i)) [
    | inl e ↦ same_of d (copy_or_make i d) _ (make_nil i d e) (refl, refl)
    | inr (p, e) ↦ same_of d (copy_or_make i d) _ (make_some i d p e) (refl, refl)
  ]

  kill_peers :
      (j : ℕ)
      → ((kill_raft i d).rafts j ≡ update d.rafts i none j) × ((kill_raft i d).count ≡ d.count)
  kill_peers j = elim (Option-cases (d.rafts i)) [
    | inl idle ↦
        subst (λ (x : Disks). (x.rafts j ≡ update d.rafts i none j) × (x.count ≡ d.count))
          (sym (kill_idle i d idle))
          (
            elim (Bool-cases (i == j)) [
              | inl same ↦
                  ground
                    (arith, same, subst (λ k. d.rafts k ≡ none) ((nat_beq_iff i j).0 same) idle)
              | inr differs ↦ ground (arith, differs)
            ],
            refl,
          )
    | inr (r, current) ↦
        subst (λ (x : Disks). (x.rafts j ≡ update d.rafts i none j) × (x.count ≡ d.count))
          (sym (kill_current i r d current)) (refl, refl)
  ]

crash_peers :
    (i j : ℕ) (d : Disks)
    → ((crash_disks i d).rafts j ≡ update d.rafts i none j) × ((crash_disks i d).count ≡ d.count)
unfolding crash_disks
crash_peers i j d =
    let copied = copy_saved i d in
    let (r1, c1) = copy_keeps i d in
    let (r2, c2) = kill_peers i copied j in
    let (r3, c3) = renew_keeps i (kill_raft i copied) in
    (
      ap (λ (f : ℕ → Option ℕ). f j) r3 ∙ r2 ∙ ap (λ (f : ℕ → Option ℕ). update f i none j) r1,
      c3 ∙ c2 ∙ c1,
    )

start_peers :
    (i j : ℕ) (d : Disks)
    → ((start_disks i d).rafts j ≡ update d.rafts i (some d.count) j)
      × ((start_disks i d).count ≡ suc d.count)
unfolding start_disks make_raft
start_peers i j d =
    let (r1, c1) = crash_peers i j d in
    let (r2, c2) = make_keeps i (crash_disks i d) in
    let rafts = ap (λ (f : ℕ → Option ℕ). f j) r2 ∙ r1 in
    (ground (arith, rafts, c1, c2), ap suc (c2 ∙ c1))

-- The stable states are what the persisters hold.
record Shows (d : Disks) (s : Stable) : Type 0 where
  state : (i : ℕ) → disk_of i d ≡ s.state i
  current : (i : ℕ) → d.rafts i ≡ s.current i
  made : d.count ≡ s.made

step-Shows :
    (e : DiskEvent) (d : Disks) (s : Stable)
    → IsApart none d
    → Shows d s
    → Shows (disk_step e d) (stable_step e s)
unfolding disk_step
step-Shows (saves r raftstate snapshot) d s a sh = record {
  state = λ i. disk_of-save i r raftstate snapshot d a ∙ ground (arith, sh.state i, sh.current i);
  current = λ i. (raft_of-save i r raftstate snapshot d).0 ∙ sh.current i;
  made = (raft_of-save 0 r raftstate snapshot d).1 ∙ sh.made;
}
step-Shows (crashes i) d s a sh = record {
  state = λ j. disk_of-crash j i d a ∙ sh.state j;
  current = λ j. (crash_peers i j d).0 ∙ ground (arith, sh.current j);
  made = (crash_peers i 0 d).1 ∙ sh.made;
}
step-Shows (starts i) d s a sh = record {
  state = λ j. disk_of-start j i d a ∙ ground (arith, sh.state i, sh.state j);
  current = λ j. (start_peers i j d).0 ∙ ground (arith, sh.current j, sh.made);
  made = (start_peers i 0 d).1 ∙ ap suc sh.made;
}

run-Shows :
    (es : List DiskEvent) (d : Disks) (s : Stable)
    → IsApart none d
    → Shows d s
    → Shows (run_disks es d) (run_stable es s)
unfolding run_disks
run-Shows [] d s a sh = sh
run-Shows (e ∷ es) d s a sh =
    run-Shows es (disk_step e d) (stable_step e s) (disk_step-IsApart e d a) (step-Shows e d s a sh)

-- However peers save, crash and are started again, what the persister of a server holds is the
-- stable state of the server: empty at its first start, changed only when its current peer saves,
-- and then to what is saved. A peer that was killed or replaced changes no server's state.
pub disks_refine :
    (es : List DiskEvent) (i : ℕ)
    → (disk_of i (run_disks es no_disks) ≡ (run_stable es no_stable).state i)
      × ((run_disks es no_disks).rafts i ≡ (run_stable es no_stable).current i)
unfolding no_disks
disks_refine es i =
    let shown =
      run-Shows es no_disks no_stable no_disks-IsApart
        (record { state = λ j. refl; current = λ j. refl; made = refl }) in
    (shown.state i, shown.current i)
