-- ===== src/Shardkv/Server/Lives.antt =====
-- shardkv/server.go: what `killed` answers.
use dist_kv_raft.Common.{
  ℕ, ◌==◌, nat_eq, Bool, false, List, [], ◌∷◌, String, Bytes, ◌≡◌, refl, ap, ◌∙◌, arith,
}
use dist_kv_raft.Shardkv.Types.{Op}
use dist_kv_raft.Shardkv.Server.{
  ShardKv, start_server, kill, killed, open_chan, begin_wait, end_wait,
}

-- What a server is asked from outside: a wait of an RPC handler begins or ends, or the tester calls
-- `Kill`.
pub data Event : Type 0 where
  submitted : ℕ → Bool → Event
  awaited : Op → ℕ → Event
  killed_by_tester : Event

module _ (m : Op → Op → Bool) where
  abbrev pub after : List Event → ShardKv → ShardKv
  after [] kv = kv
  after (submitted index is_leader ∷ es) kv = after es (begin_wait (index, is_leader) kv).1
  after (awaited op index ∷ es) kv = after es (end_wait m op index kv).1
  after (killed_by_tester ∷ es) kv = after es (kill kv)

  begin_wait-dead :
      (index : ℕ) (is_leader : Bool) (kv : ShardKv)
      → (begin_wait (index, is_leader) kv).1.dead ≡ kv.dead
  unfolding begin_wait open_chan
  begin_wait-dead index is_leader kv = ground arith

  end_wait-dead : (op : Op) (index : ℕ) (kv : ShardKv) → (end_wait m op index kv).1.dead ≡ kv.dead
  unfolding end_wait
  end_wait-dead op index kv = ground arith

  after-dead : (es : List Event) (kv : ShardKv) → (after es kv).dead ≡ kv.dead
  unfolding kill
  after-dead [] kv = refl
  after-dead (submitted index is_leader ∷ es) kv =
      after-dead es (begin_wait (index, is_leader) kv).1 ∙ begin_wait-dead index is_leader kv
  after-dead (awaited op index ∷ es) kv =
      after-dead es (end_wait m op index kv).1 ∙ end_wait-dead op index kv
  after-dead (killed_by_tester ∷ es) kv = after-dead es (record kv { raft_dead = 1 })

  -- If reading a snapshot leaves `dead` alone, then whatever waits begin and end and however often
  -- Kill is called after the start of a server, `killed` stays false. The applying of messages is not
  -- among these events.
  pub never_killed :
      (decode_snapshot : Bytes → ShardKv → ShardKv) (snapshot : Bytes) (me maxraftstate gid : ℕ)
      (ctrlers : List String) (x : ℕ) (es : List Event)
      → ((s : Bytes) (kv : ShardKv) → (decode_snapshot s kv).dead ≡ kv.dead)
      → killed (after es (start_server decode_snapshot snapshot me maxraftstate gid ctrlers x))
        ≡ false
  unfolding killed start_server
  never_killed decode_snapshot snapshot me maxraftstate gid ctrlers x es keeps =
      ap (λ d. d == 1) (after-dead es _ ∙ keeps snapshot _)
