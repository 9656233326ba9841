-- ===== src/Shardctrler/Server/History.antt =====
-- What a controller of shardctrler/server.go has done after a history of events.
use dist_kv_raft.Common.{
  ℕ, nat_eq, ◌≡◌, ◌≢◌, ◌∙◌, Bool, true, false, some, List, [], ◌∷◌, lookup, arith, All,
}
use dist_kv_raft.Shardctrler.Types.{Op}
use dist_kv_raft.Shardctrler.Server.{
  ShardCtrler, Handlers, Event, is_new, execute, run, start_server, first_config, apply_op,
  begin_wait, end_wait, open_chan,
}
use dist_kv_raft.Shardctrler.Server.Dedup.{
  newer, accepted, replay, onto, Summarises, execute-open_chan,
}
use dist_kv_raft.Shardctrler.Server.Channels.{
  sent, apply_op_free, lookup-sent, open_chan_full, end_wait_full, open_chan_free,
}
use dist_kv_raft.Shardctrler.Server.Run.{
  ops_of, Increasing, Finishes, Finishes-map, Between-start_server, run_from,
}

newer_self : (op : Op) (seen : List Op) → newer op (op ∷ seen) ≡ false
newer_self op seen = ground arith

newer-onto :
    (op : Op) (ops seen : List Op) → newer op seen ≡ false → newer op (onto ops seen) ≡ false
newer-onto op [] seen e = e
newer-onto op (x ∷ ops) seen e = newer-onto op ops (x ∷ seen) (ground arith)

execute_old :
    (h : Handlers) (op : Op) (sc : ShardCtrler)
    → is_new op sc.cache ≡ false
    → execute h op sc ≡ (op, sc)
unfolding execute
execute_old h op sc e = ground arith

repeats_ignored :
    (h : Handlers) (ops seen : List Op) (sc : ShardCtrler)
    → Summarises sc.cache (onto ops seen)
    → All (λ op. execute h op sc ≡ (op, sc)) ops
repeats_ignored h [] seen sc s = tt
repeats_ignored h (op ∷ ops) seen sc s = (
  execute_old h op sc (s op ∙ newer-onto op ops (op ∷ seen) (newer_self op seen)),
  repeats_ignored h ops (op ∷ seen) sc s,
)

module _ (h : Handlers) (m : Op → Op → Bool) where
  -- A controller that starts afresh, and gets its commands at rising indices, never stops at a
  -- full channel, whatever waits, timeouts and calls of Kill come between. Its configurations are
  -- then those that the handlers make from the first one when they run, in order, on exactly the
  -- commands that are later than every earlier command of their client.
  pub configs-run :
      (me b : ℕ) (es : List Event)
      → Increasing b es
      → Finishes
          (run h m es (start_server me))
          (λ s. s.configs ≡ replay h (accepted [] (ops_of es)) (first_config ∷ []))
  unfolding start_server
  configs-run me b es i =
      Finishes-map (run h m es (start_server me)) (λ s r. r.0)
        (run_from h m es b [] (start_server me) i (Between-start_server b me))

  -- When a controller has started afresh and has run on commands at rising indices, with any waits,
  -- timeouts and calls of Kill between them, a command that was among them, applied again, changes
  -- nothing but the channel of its index: the handlers do not run, and the cache stays as it is.
  pub run_ignores_repeats :
      (me b : ℕ) (es : List Event)
      → Increasing b es
      → Finishes
          (run h m es (start_server me))
          (λ s. All (λ op. execute h op s ≡ (op, s)) (ops_of es))
  run_ignores_repeats me b es i =
      Finishes-map (run h m es (start_server me)) (λ s r. repeats_ignored h (ops_of es) [] s r.1)
        (run_from h m es b [] (start_server me) i (Between-start_server b me))

  -- At an index at which no operation waits, an RPC handler of the leader gets the operation that
  -- was applied there, with the reply that its execution wrote, and reports whether it is the one
  -- that it had submitted. This is so whether the handler or the loop makes the channel.
  pub wait_gets_applied :
      (from_client op : Op) (index : ℕ) (sc : ShardCtrler)
      → ((o : Op) → lookup index sc.index_chan ≢ some (some o))
      → let answer = (execute h op sc).0 in
        Finishes
          (apply_op h op index (begin_wait (index, true) sc).1)
          (λ s. (end_wait m from_client index s).0 ≡ (m from_client answer, answer))
        × Finishes (apply_op h op index sc) (λ s.
          (end_wait m from_client index (begin_wait (index, true) s).1).0
          ≡ (m from_client answer, answer))
  unfolding begin_wait
  wait_gets_applied from_client op index sc free = (
    rw (apply_op_free h op index (open_chan index sc) (open_chan_free index sc free)) (
        end_wait_full m from_client _ index _ (lookup-sent h op index (open_chan index sc))
        ∙ rw (execute-open_chan h op sc index)),
    rw (apply_op_free h op index sc free) (
        let found = lookup-sent h op index sc in
        rw (open_chan_full index (execute h op sc).0 (sent h op index sc) found)
          (end_wait_full m from_client _ index _ found)),
  )
