-- ===== src/Shardctrler/Server/Dedup.antt =====
-- The duplicate filter of runShardCtrler against the history of the commands.
use dist_kv_raft.Common.{
  ℕ, ltb, ◌==◌, nat_eq, if◌then◌else◌, ◌≡◌, refl, Bool, true, List, [], ◌∷◌, Dict, lookup, insert,
  lookup-insert, ◌&&◌, ◌||◌, not, arith,
}
use dist_kv_raft.Shardctrler.Types.{Config, Op}
use dist_kv_raft.Shardctrler.Server.{ShardCtrler, Handlers, is_new, dispatch, execute, open_chan}

-- Every earlier command of the client is older.
abbrev pub newer : Op → List Op → Bool
newer op [] = true
newer op (s ∷ seen) =
    (not (s.client_id == op.client_id) || ltb s.time_stamp op.time_stamp) && newer op seen

-- The commands that pass, given those before them, with no cache.
abbrev pub accepted : List Op → List Op → List Op
accepted seen [] = []
accepted seen (op ∷ ops) =
    let rest = accepted (op ∷ seen) ops in if newer op seen then op ∷ rest else rest

-- The handlers of a list of commands, one after the other.
abbrev pub replay : Handlers → List Op → List Config → List Config
replay h [] configs = configs
replay h (op ∷ ops) configs = replay h ops (dispatch h op configs).1

abbrev pub onto : List Op → List Op → List Op
onto [] seen = seen
onto (op ∷ ops) seen = onto ops (op ∷ seen)

-- The cache answers for the commands in `seen`.
abbrev pub Summarises : Dict ℕ ℕ → List Op → Type 0
Summarises cache seen = (op : Op) → is_new op cache ≡ newer op seen

pub Summarises-empty : Summarises [] []
unfolding is_new lookup
Summarises-empty op = refl

abbrev pub remember : Op → Dict ℕ ℕ → Dict ℕ ℕ
remember op cache = if is_new op cache then insert op.client_id op.time_stamp cache else cache

is_new-remember :
    (x op : Op) (cache : Dict ℕ ℕ)
    → is_new op (remember x cache)
      ≡ ((not (x.client_id == op.client_id) || ltb x.time_stamp op.time_stamp) && is_new op cache)
unfolding is_new
is_new-remember x op cache =
    ground (arith, lookup-insert x.client_id op.client_id x.time_stamp cache)

pub Summarises-remember :
    (x : Op) (cache : Dict ℕ ℕ) (seen : List Op)
    → Summarises cache seen
    → Summarises (remember x cache) (x ∷ seen)
Summarises-remember x cache seen s op = rw (is_new-remember x op cache, s op)

module _ (h : Handlers) (op : Op) (sc : ShardCtrler) where
  pub cache-execute : (execute h op sc).1.cache ≡ remember op sc.cache
  unfolding execute
  cache-execute = ground arith

  pub configs-execute :
      (execute h op sc).1.configs
      ≡ (if is_new op sc.cache then (dispatch h op sc.configs).1 else sc.configs)
  unfolding execute
  configs-execute = ground arith

  pub index_chan-execute : (execute h op sc).1.index_chan ≡ sc.index_chan
  unfolding execute
  index_chan-execute = ground arith

  pub dead-execute : (execute h op sc).1.dead ≡ sc.dead
  unfolding execute
  dead-execute = ground arith

  pub execute-open_chan : (index : ℕ) → (execute h op (open_chan index sc)).0 ≡ (execute h op sc).0
  unfolding execute open_chan
  execute-open_chan index = ground arith
