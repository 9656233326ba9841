-- ===== src/Shardctrler/Server/Channels.antt =====
-- The channels of shardctrler/server.go: no send stops the loop, and a waiter gets its operation.
use dist_kv_raft.Common.{
  ℕ, suc, ◌≤◌, nat_eq, ◌≡◌, ◌≢◌, inl, inr, Bool, Option, none, some, [], Dict, lookup, insert,
  lookup-insert, arith, ap, sym, ◌∙◌, Option-cases, beq_refl,
}
use dist_kv_raft.Shardctrler.Types.{Op}
use dist_kv_raft.Shardctrler.Server.{
  ShardCtrler, Handlers, done, execute, open_chan, send, apply_op, end_wait,
}
use dist_kv_raft.Shardctrler.Server.Dedup.{index_chan-execute}

abbrev no_op : Option Op
no_op = none

-- From this index on no operation waits to be read.
abbrev pub IsFreeFrom : ℕ → Dict ℕ (Option Op) → Type 0
IsFreeFrom b chans = (i : ℕ) (op : Op) → b ≤ i → lookup i chans ≢ some (some op)

pub IsFreeFrom-empty : (b : ℕ) → IsFreeFrom b []
unfolding lookup
IsFreeFrom-empty b i op le e = ground arith

pub IsFreeFrom-open_chan :
    (b index : ℕ) (sc : ShardCtrler)
    → IsFreeFrom b sc.index_chan
    → IsFreeFrom b (open_chan index sc).index_chan
unfolding open_chan
IsFreeFrom-open_chan b index sc free i op le =
    ground (arith, free i op le, lookup-insert index i no_op sc.index_chan)

pub IsFreeFrom-end_wait :
    (m : Op → Op → Bool) (from_client : Op) (b index : ℕ) (sc : ShardCtrler)
    → IsFreeFrom b sc.index_chan
    → IsFreeFrom b (end_wait m from_client index sc).1.index_chan
unfolding end_wait
IsFreeFrom-end_wait m from_client b index sc free i op le =
    ground (arith, free i op le, lookup-insert index i no_op sc.index_chan)

pub IsFreeFrom-insert :
    (b index : ℕ) (o : Option Op) (chans : Dict ℕ (Option Op))
    → b ≤ index
    → IsFreeFrom b chans
    → IsFreeFrom (suc index) (insert index o chans)
IsFreeFrom-insert b index o chans le free i op le' =
    ground (arith, free i op, lookup-insert index i o chans)

send-open_chan :
    (op : Op) (index : ℕ) (sc : ShardCtrler)
    → ((o : Op) → lookup index sc.index_chan ≢ some (some o))
    → send index op (open_chan index sc)
      ≡ done (record sc { index_chan = insert index (some op) (open_chan index sc).index_chan })
unfolding send open_chan
send-open_chan op index sc free = elim (Option-cases (lookup index sc.index_chan)) [
  | inl e ↦ ground (arith, lookup-insert index index no_op sc.index_chan)
  | inr (none, e) ↦ ground arith
  | inr (some o, e) ↦ absurd (free o e)
]

abbrev pub sent : Handlers → Op → ℕ → ShardCtrler → ShardCtrler
sent h op index sc =
    let (op', sc') = execute h op sc in
    record sc' { index_chan = insert index (some op') (open_chan index sc').index_chan }

-- A send to an index at which nothing waits goes through, and is what the channel then holds.
pub apply_op_free :
    (h : Handlers) (op : Op) (index : ℕ) (sc : ShardCtrler)
    → ((o : Op) → lookup index sc.index_chan ≢ some (some o))
    → apply_op h op index sc ≡ done (sent h op index sc)
unfolding apply_op
apply_op_free h op index sc free =
    send-open_chan (execute h op sc).0 index (execute h op sc).1
      (λ o e. free o (ap (lookup index) (sym (index_chan-execute h op sc)) ∙ e))

pub lookup-sent :
    (h : Handlers) (op : Op) (index : ℕ) (sc : ShardCtrler)
    → lookup index (sent h op index sc).index_chan ≡ some (some (execute h op sc).0)
lookup-sent h op index sc = rw (
  lookup-insert index index (some (execute h op sc).0)
      (open_chan index (execute h op sc).1).index_chan,
  beq_refl index,
)

pub open_chan_full :
    (index : ℕ) (op : Op) (sc : ShardCtrler)
    → lookup index sc.index_chan ≡ some (some op)
    → open_chan index sc ≡ sc
unfolding open_chan
open_chan_full index op sc e = rw (e, open_chan)

pub end_wait_full :
    (m : Op → Op → Bool) (from_client op : Op) (index : ℕ) (sc : ShardCtrler)
    → lookup index sc.index_chan ≡ some (some op)
    → (end_wait m from_client index sc).0 ≡ (m from_client op, op)
unfolding end_wait
end_wait_full m from_client op index sc e = rw (e, end_wait)

pub open_chan_free :
    (index : ℕ) (sc : ShardCtrler)
    → ((o : Op) → lookup index sc.index_chan ≢ some (some o))
    → (o : Op) → lookup index (open_chan index sc).index_chan ≢ some (some o)
unfolding open_chan
open_chan_free index sc free o e =
    ground (arith, free o, lookup-insert index index no_op sc.index_chan)
