-- ===== src/Shardctrler/Server/Run.antt =====
-- runShardCtrler over a whole history of messages, waits and calls of Kill.
use dist_kv_raft.Common.{
  ℕ, suc, ◌≤◌, nat_eq, if◌then◌else◌, ◌≡◌, refl, ap, ◌∙◌, inl, inr, Bool, true, false, Option, none,
  some, List, [], ◌∷◌, arith, Option-cases,
}
use dist_kv_raft.Raft.Types.{ApplyMsg}
use dist_kv_raft.Shardctrler.Types.{Op}
use dist_kv_raft.Shardctrler.Server.{
  ShardCtrler, Handlers, Outcome, done, blocked, Event, applied, submitted, awaited,
  killed_by_tester, execute, handle_msg, apply_op, open_chan, begin_wait, end_wait, kill, killed,
  step, run, start_server,
}
use dist_kv_raft.Shardctrler.Server.Dedup.{
  accepted, replay, onto, Summarises, Summarises-empty, Summarises-remember, cache-execute,
  configs-execute, index_chan-execute, dead-execute,
}
use dist_kv_raft.Shardctrler.Server.Channels.{
  IsFreeFrom, IsFreeFrom-empty, IsFreeFrom-open_chan, IsFreeFrom-end_wait, IsFreeFrom-insert, sent,
  apply_op_free,
}

-- The command that a message carries, if the loop applies one.
unfoldable pub op_of : ApplyMsg Op → Option Op
op_of m = elim m.command [ none ↦ none | some op ↦ if m.command_valid then some op else none ]

abbrev pub ops_of : List Event → List Op
ops_of [] = []
ops_of (applied m ∷ es) = elim (op_of m) [ none ↦ ops_of es | some op ↦ op ∷ ops_of es ]
ops_of (submitted i l ∷ es) = ops_of es
ops_of (awaited op i ∷ es) = ops_of es
ops_of (killed_by_tester ∷ es) = ops_of es

-- Raft delivers commands at rising indices, the first at `b` or above.
abbrev pub Increasing : ℕ → List Event → Type 0
Increasing b [] = Unit
Increasing b (applied m ∷ es) = elim (op_of m) [
  | none ↦ Increasing b es
  | some op ↦ (b ≤ m.command_index) × Increasing (suc m.command_index) es
]
Increasing b (submitted i l ∷ es) = Increasing b es
Increasing b (awaited op i ∷ es) = Increasing b es
Increasing b (killed_by_tester ∷ es) = Increasing b es

abbrev pub Finishes : Outcome → (ShardCtrler → Type 0) → Type 0
Finishes (done sc) P = P sc
Finishes (blocked sc) P = ⊥

pub Finishes-map :
    {P Q : ShardCtrler → Type 0} (o : Outcome)
    → ((s : ShardCtrler) → P s → Q s)
    → Finishes o P
    → Finishes o Q
Finishes-map (done s) f p = f s p
Finishes-map (blocked s) f p = p

-- What holds between two events, once the commands in `seen` have been applied.
pub record Between (b : ℕ) (seen : List Op) (sc : ShardCtrler) : Type 0 where
  pub alive : sc.dead ≡ 0
  pub free : IsFreeFrom b sc.index_chan
  pub known : Summarises sc.cache seen

pub Between-start_server : (b me : ℕ) → Between b [] (start_server me)
unfolding start_server
Between-start_server b me = record {
  alive = refl;
  free = IsFreeFrom-empty b;
  known = Summarises-empty;
}

handle_msg-none :
    (h : Handlers) (m : ApplyMsg Op) (sc : ShardCtrler)
    → op_of m ≡ none
    → handle_msg h m sc ≡ done sc
unfolding handle_msg op_of
handle_msg-none h m sc e = ground arith

handle_msg-some :
    (h : Handlers) (m : ApplyMsg Op) (op : Op) (sc : ShardCtrler)
    → op_of m ≡ some op
    → handle_msg h m sc ≡ apply_op h op m.command_index sc
unfolding handle_msg op_of
handle_msg-some h m op sc e = ground arith

Between-sent :
    (h : Handlers) (op : Op) (b index : ℕ) (seen : List Op) (sc : ShardCtrler)
    → b ≤ index
    → Between b seen sc
    → Between (suc index) (op ∷ seen) (sent h op index sc)
Between-sent h op b index seen sc le v = record {
  alive = dead-execute h op sc ∙ v.alive;
  free =
      IsFreeFrom-insert b index _ (open_chan index (execute h op sc).1).index_chan le
        (IsFreeFrom-open_chan b index (execute h op sc).1 (rw (index_chan-execute h op sc) v.free));
  known = rw (cache-execute h op sc) (Summarises-remember op sc.cache seen v.known);
}

module _ (h : Handlers) (m : Op → Op → Bool) where
  -- The events other than messages touch neither configurations nor cache.
  record IsQuiet (b : ℕ) (seen : List Op) (e : Event) (sc : ShardCtrler) : Type 0 where
    next : ShardCtrler
    steps : step h m e sc ≡ done next
    same_configs : next.configs ≡ sc.configs
    between : Between b seen next

  submitted-IsQuiet :
      (b : ℕ) (seen : List Op) (index : ℕ) (l : Bool) (sc : ShardCtrler)
      → Between b seen sc
      → IsQuiet b seen (submitted index l) sc
  unfolding step begin_wait
  submitted-IsQuiet b seen index true sc v = record {
    next = open_chan index sc;
    steps = refl;
    same_configs = unfold open_chan in ground arith;
    between = record {
      alive = unfold open_chan in ground arith;
      free = IsFreeFrom-open_chan b index sc v.free;
      known = unfold open_chan in ground arith;
    };
  }
  submitted-IsQuiet b seen index false sc v = record {
    next = sc;
    steps = refl;
    same_configs = refl;
    between = v;
  }

  awaited-IsQuiet :
      (b : ℕ) (seen : List Op) (op : Op) (index : ℕ) (sc : ShardCtrler)
      → Between b seen sc
      → IsQuiet b seen (awaited op index) sc
  unfolding step
  awaited-IsQuiet b seen op index sc v = record {
    next = (end_wait m op index sc).1;
    steps = refl;
    same_configs = unfold end_wait in ground arith;
    between = record {
      alive = unfold end_wait in ground arith;
      free = IsFreeFrom-end_wait m op b index sc v.free;
      known = unfold end_wait in ground arith;
    };
  }

  killed-IsQuiet :
      (b : ℕ) (seen : List Op) (sc : ShardCtrler)
      → Between b seen sc
      → IsQuiet b seen killed_by_tester sc
  unfolding step kill
  killed-IsQuiet b seen sc v = record {
    next = kill sc;
    steps = refl;
    same_configs = refl;
    between = record { alive = v.alive; free = v.free; known = v.known };
  }

  step_applied :
      (msg : ApplyMsg Op) (sc : ShardCtrler)
      → sc.dead ≡ 0
      → step h m (applied msg) sc ≡ handle_msg h msg sc
  unfolding step killed
  step_applied msg sc e = rw e

  abbrev Replays : List Op → List Op → ShardCtrler → ShardCtrler → Type 0
  Replays ops seen sc s =
      (s.configs ≡ replay h (accepted seen ops) sc.configs) × Summarises s.cache (onto ops seen)

  Replays-sent :
      (op : Op) (ops : List Op) (index : ℕ) (seen : List Op) (sc s : ShardCtrler)
      → Summarises sc.cache seen
      → Replays ops (op ∷ seen) (sent h op index sc) s
      → Replays (op ∷ ops) seen sc s
  Replays-sent op ops index seen sc s known r =
      (ground (arith, known op, configs-execute h op sc), r.1)

  after_quiet :
      (b : ℕ) (seen : List Op) (e : Event) (es : List Event) (sc : ShardCtrler)
      → (q : IsQuiet b seen e sc) → Finishes (run h m es q.next) (Replays (ops_of es) seen q.next)
      → Finishes (run h m (e ∷ es) sc) (Replays (ops_of es) seen sc)
  unfolding run
  after_quiet b seen e es sc q f =
      rw (q.steps, run)
        (Finishes-map (run h m es q.next)
          (λ s r. (r.0 ∙ ap (replay h (accepted seen (ops_of es))) q.same_configs, r.1)) f)

  after_applied :
      (b : ℕ) (seen : List Op) (msg : ApplyMsg Op) (op : Op) (es : List Event) (sc : ShardCtrler)
      → op_of msg ≡ some op
      → b ≤ msg.command_index
      → Between b seen sc
      → (let s = sent h op msg.command_index sc in
          Finishes (run h m es s) (Replays (ops_of es) (op ∷ seen) s))
      → Finishes (run h m (applied msg ∷ es) sc) (Replays (op ∷ ops_of es) seen sc)
  unfolding run
  after_applied b seen msg op es sc e le v f =
      let index = msg.command_index in
      let steps : step h m (applied msg) sc ≡ done (sent h op index sc) =
        step_applied msg sc v.alive
        ∙ handle_msg-some h msg op sc e
        ∙ apply_op_free h op index sc (λ o. v.free index o le) in
      rw (steps, run)
        (Finishes-map (run h m es (sent h op index sc))
          (λ s. Replays-sent op (ops_of es) index seen sc s v.known) f)

  -- From any state between two events the loop takes every message, and the configurations are
  -- those of the accepted commands alone.
  pub run_from :
      (es : List Event) (b : ℕ) (seen : List Op) (sc : ShardCtrler)
      → Increasing b es
      → Between b seen sc
      → Finishes (run h m es sc) (Replays (ops_of es) seen sc)
  run_from [] b seen sc i v = unfold run in (refl, v.known)
  run_from (applied msg ∷ es) b seen sc i v = elim (Option-cases (op_of msg)) [
    | inl e ↦
        let q : IsQuiet b seen (applied msg) sc = record {
          next = sc;
          steps = step_applied msg sc v.alive ∙ handle_msg-none h msg sc e;
          same_configs = refl;
          between = v;
        } in
        rw (e, ops_of)
          (after_quiet b seen (applied msg) es sc q
            (run_from es b seen sc (rw (e, Increasing) at i) v))
    | inr (op, e) ↦
        let (le, rest) = rw (e, Increasing) at i in
        let after = Between-sent h op b msg.command_index seen sc le v in
        rw (e, ops_of)
          (after_applied b seen msg op es sc e le v (
            run_from es (suc msg.command_index) (op ∷ seen) (sent h op msg.command_index sc) rest
              after))
  ]
  run_from (submitted index l ∷ es) b seen sc i v =
      let q = submitted-IsQuiet b seen index l sc v in
      after_quiet b seen (submitted index l) es sc q (run_from es b seen q.next i q.between)
  run_from (awaited op index ∷ es) b seen sc i v =
      let q = awaited-IsQuiet b seen op index sc v in
      after_quiet b seen (awaited op index) es sc q (run_from es b seen q.next i q.between)
  run_from (killed_by_tester ∷ es) b seen sc i v =
      let q = killed-IsQuiet b seen sc v in
      after_quiet b seen killed_by_tester es sc q (run_from es b seen q.next i q.between)
