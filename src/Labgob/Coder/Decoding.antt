-- ===== src/Labgob/Coder/Decoding.antt =====
-- labgob/labgob.go: Decode on its branches.
use dist_kv_raft.Common.{ℕ, Option, ◌+◌, Bool, some, List, [], length, ◌≡◌, true}
use dist_kv_raft.Labgob.Types.{Table, kind, Item, Globals, is_checked}
use dist_kv_raft.Labgob.Capital.Marks.{total}
use dist_kv_raft.Labgob.Capital.Reached.{lower_in}
use dist_kv_raft.Labgob.Default.Found.{Leaf, leaves, found}
use dist_kv_raft.Labgob.Default.{visible}
use dist_kv_raft.Labgob.Coder.{Gob, LabDecoder, returned, decode}

module _ (is_upper : ℕ → Bool) (table : Table) (fuel : ℕ) {W R : Type 0} (std : Gob W R) where
  abbrev leaves_in : Item → List Leaf
  leaves_in e = leaves is_upper e.value visible 1 []

  abbrev answer : Item → LabDecoder std.Decoder → LabDecoder std.Decoder × Option Item × Bool
  answer e dec = (
    record { gob = (std.decode (some e) dec.gob).0 },
    (std.decode (some e) dec.gob).1,
    (std.decode (some e) dec.gob).2,
  )

  -- What Decode does with a value: it panics, or returns what gob's Decode gives. Then the value's
  -- type is marked, and errorCount has grown by the number of fields that are not capitalized in the
  -- types newly marked, and by the number of scalars, at most three levels deep, that were not zero.
  pub record Decodes (e : Item) (dec : LabDecoder std.Decoder) (g k : Globals) : Type 0 where
    pub ends : decode is_upper table fuel std (some e) dec g ≡ returned (answer e dec) k
    pub is_marked : is_checked e.item_type k ≡ true
    pub counted :
        k.error_count + total (λ u. lower_in is_upper (kind table u)) (length table) g
        ≡ g.error_count
          + total (λ u. lower_in is_upper (kind table u)) (length table) k
          + length (found (leaves_in e))
