-- ===== src/Raft/Restart.antt =====
-- raft/config.go: crash1 and start1, what they do to the persisters. Memory is explicit here: a
-- persister and a peer are known by their addresses, since an old peer goes on with its own
-- persister after it was killed. An array of the source is a function of the server.
pub mod Apart
pub mod Crash
pub mod Stable
pub mod Refined
mod Examples
use dist_kv_raft.Common.{
  ℕ, suc, ◌+◌, ◌==◌, nat_eq, if◌then◌else◌, Bool, true, false, Option, none, some, List, [], ◌∷◌,
  Bytes,
}
use dist_kv_raft.Raft.Storage.{
  Persister, make_persister, copy, save, read_raft_state, read_snapshot,
}

-- A peer that `Make` has returned, as far as the harness depends on it.
pub record Instance : Type 0 where
  pub persister : Option ℕ
  pub dead : Bool

-- Memory, and `cfg.saved` and `cfg.rafts`. The addresses from `next` and `count` on are free.
pub record Disks : Type 0 where
  pub heap : ℕ → Persister
  pub next : ℕ
  pub instances : ℕ → Instance
  pub count : ℕ
  pub saved : ℕ → Option ℕ
  pub rafts : ℕ → Option ℕ

abbrev pub update : {A : Type 0} → (ℕ → A) → ℕ → A → ℕ → A
update f i v j = if i == j then v else f j

unfoldable pub no_disks : Disks
unfolding make_persister
no_disks = record {
  heap = λ p. make_persister;
  next = 0;
  instances = λ r. record { persister = none; dead = false };
  count = 0;
  saved = λ i. none;
  rafts = λ i. none;
}

-- `cfg.saved[i]` becomes a new persister.
unfoldable pub replace_saved : ℕ → Persister → Disks → Disks
replace_saved i ps d = record d {
  heap = update d.heap d.next ps;
  next = suc d.next;
  saved = update d.saved i (some d.next);
}

-- `cfg.saved[i] = cfg.saved[i].Copy()`, unless it is nil.
unfoldable pub copy_saved : ℕ → Disks → Disks
unfolding replace_saved copy
copy_saved i d = elim (d.saved i) [ none ↦ d | some p ↦ replace_saved i (copy (d.heap p)) d ]

-- `rf.Kill()` and `cfg.rafts[i] = nil`, unless it is nil.
unfoldable pub kill_raft : ℕ → Disks → Disks
kill_raft i d = elim (d.rafts i) [
  | none ↦ d
  | some r ↦ record d {
    instances = update d.instances r (record (d.instances r) { dead = true });
    rafts = update d.rafts i none;
  }
]

-- The second copy that `crash1` makes, by hand.
unfoldable pub renew_saved : ℕ → Disks → Disks
unfolding replace_saved make_persister save read_raft_state read_snapshot
renew_saved i d = elim (d.saved i) [
  | none ↦ d
  | some p ↦
      replace_saved i
        (save (read_raft_state (d.heap p)) (read_snapshot (d.heap p))
          (record { raftstate = []; snapshot = [] }))
        d
]

unfoldable pub crash_disks : ℕ → Disks → Disks
unfolding copy_saved kill_raft renew_saved
crash_disks i d = renew_saved i (kill_raft i (copy_saved i d))

unfoldable pub copy_or_make : ℕ → Disks → Disks
unfolding copy_saved replace_saved make_persister
copy_or_make i d = elim (d.saved i) [
  | none ↦ replace_saved i make_persister d
  | some p ↦ copy_saved i d
]

-- `rf := Make(ends, i, cfg.saved[i], applyCh)` and `cfg.rafts[i] = rf`.
unfoldable pub make_raft : ℕ → Disks → Disks
make_raft i d = record d {
  instances = update d.instances d.count (record { persister = d.saved i; dead = false });
  count = suc d.count;
  rafts = update d.rafts i (some d.count);
}

unfoldable pub start_disks : ℕ → Disks → Disks
unfolding crash_disks copy_or_make make_raft
start_disks i d = make_raft i (copy_or_make i (crash_disks i d))

-- A peer saves its state, current or not, dead or not.
unfoldable pub instance_save : ℕ → Bytes → Bytes → Disks → Disks
unfolding save
instance_save r raftstate snapshot d = elim (d.instances r).persister [
  | none ↦ d
  | some p ↦ record d { heap = update d.heap p (save raftstate snapshot (d.heap p)) }
]

pub data DiskEvent : Type 0 where
  saves : ℕ → Bytes → Bytes → DiskEvent
  crashes : ℕ → DiskEvent
  starts : ℕ → DiskEvent

unfoldable pub disk_step : DiskEvent → Disks → Disks
unfolding instance_save crash_disks start_disks
disk_step (saves r raftstate snapshot) d = instance_save r raftstate snapshot d
disk_step (crashes i) d = crash_disks i d
disk_step (starts i) d = start_disks i d

unfoldable pub run_disks : List DiskEvent → Disks → Disks
unfolding disk_step
run_disks [] d = d
run_disks (e ∷ es) d = run_disks es (disk_step e d)
