-- ===== src/Labgob/Examples.antt =====
-- A linked type with one field that is not capitalized, sent twice and decoded into a used reply.
use dist_kv_raft.Common.{
  ℕ, zero, suc, ◌+◌, leb, Bool, true, false, ◌&&◌, pos, none, some, List, [], ◌∷◌, Has, length, ◌≡◌,
  refl, arith, ◌↔◌, inl, inr, lookup, insert,
}
use dist_kv_raft.Labgob.Types.{
  struct, pointer, mapping, scalar, Table, kind, Value, fields, points_to, single, null, end, field,
  integer, Item, Globals, start, lower_case, non_default, is_checked,
}
use dist_kv_raft.Labgob.Capital.{check_type, mark, complain}
use dist_kv_raft.Labgob.Capital.Marks.{total, unchecked_bound}
use dist_kv_raft.Labgob.Capital.Reached.{lower_in, IsTable, Reach}
use dist_kv_raft.Labgob.Capital.Calls.{check_type_terminates}
use dist_kv_raft.Labgob.Default.{visible, check_default}
use dist_kv_raft.Labgob.Default.Found.{leaves, is_blocked}
use dist_kv_raft.Labgob.Coder.{Gob, LabEncoder, returned, decode}
use dist_kv_raft.Labgob.Coder.History.{
  Use, encodes, encodes_value, registers, run_uses, types_of, types_checked_once,
}

abbrev ascii_upper : ℕ → Bool
ascii_upper rune = leb b'A' rune && leb rune b'Z'

-- type Entry struct { Term int; next *Entry }, and a map of entries.
abbrev table : Table
table =
    struct (
      record { name = b'T' ∷ b'e' ∷ []; field_type = 2 }
      ∷ record { name = b'n' ∷ b'e' ∷ []; field_type = 1 }
      ∷ [])
    ∷ pointer 0
    ∷ scalar
    ∷ mapping 0 2
    ∷ []

table-IsTable : IsTable table
table-IsTable zero v (inl e) = omega arith
table-IsTable zero v (inr (inl e)) = omega arith
table-IsTable zero v (inr (inr e)) = absurd e
table-IsTable (suc zero) v (inl e) = omega arith
table-IsTable (suc zero) v (inr e) = absurd e
table-IsTable (suc (suc zero)) v e = absurd e
table-IsTable (suc (suc (suc zero))) v (inl e) = omega arith
table-IsTable (suc (suc (suc zero))) v (inr (inl e)) = omega arith
table-IsTable (suc (suc (suc zero))) v (inr (inr e)) = absurd e
table-IsTable (suc (suc (suc (suc u)))) v e = absurd e

-- Coders that count their calls.
abbrev counting : Gob ℕ ℕ
counting = record {
  Encoder = ℕ;
  Decoder = ℕ;
  Registry = ℕ;
  new_encoder = λ w. w;
  new_decoder = λ r. r;
  encode = λ e enc. (enc + 1, true);
  encode_value = λ v enc. (enc + 1, true);
  decode = λ e dec. (dec + 1, e, true);
  register = λ e registry. registry + 1;
  register_name = λ name e registry. registry + 1;
}

abbrev entry : Value
entry = fields (
    field (b'T' ∷ []) false (single (b'i' ∷ []) (integer (pos 3)))
      (field (b'n' ∷ []) false (points_to (single (b'i' ∷ []) (integer (pos 4)))) end))

abbrev reply : Item
reply = record { item_type = 1; value = points_to entry }

-- The pointer inside the entry leads to level 4.
runs_check_default :
    check_default ascii_upper (some reply) start
    ≡ some (record { checked = []; error_count = 1; printed = non_default (b'T' ∷ []) ∷ [] })
unfolding check_default
runs_check_default = refl

-- type Hidden struct { term int }
abbrev hidden : Item
hidden = record {
  item_type = 2;
  value = fields (field (b't' ∷ []) false (single (b'i' ∷ []) (integer (pos 0))) end);
}

panics_at_hidden : check_default ascii_upper (some hidden) start ≡ none
unfolding check_default
panics_at_hidden = refl

-- An exported field of an embedded struct whose type is not exported.
embedded_is_reached :
    check_default ascii_upper
      (some (record {
        item_type = 2;
        value = fields (
            field
              (b't' ∷ [])
              true
              (fields (field (b'T' ∷ []) false (single (b'i' ∷ []) (integer (pos 0))) end))
              end);
      }))
      start
    ≡ some start
unfolding check_default
embedded_is_reached = refl

abbrev entries : Item
entries = record { item_type = 3; value = null }

runs_check_type :
    check_type ascii_upper table 5 3 start
    ≡ some (record {
      checked = (3, true) ∷ (0, true) ∷ (2, true) ∷ (1, true) ∷ [];
      error_count = 1;
      printed = lower_case (b'n' ∷ b'e' ∷ []) 0 ∷ [];
    })
unfolding check_type is_checked mark complain insert lookup
runs_check_type = refl

check_type_terminates_example :
    (h : Globals) × (check_type ascii_upper table 5 3 start ≡ some h) × (is_checked 3 h ≡ true)
check_type_terminates_example =
    check_type_terminates ascii_upper table 5 3 start table-IsTable (omega arith)
      (omega (arith, unchecked_bound 4 start))

abbrev uses : List Use
uses = encodes (some entries) ∷ encodes_value entries ∷ registers (some reply) ∷ []

types_checked_once_example :
    (held' : LabEncoder ℕ × ℕ) × (h : Globals) × (run_uses ascii_upper table 5 counting uses
        (record { gob = 0 }, 0)
        start
      ≡ returned held' h)
    × ((u : ℕ) → (is_checked u h ≡ true) ↔ ((t : ℕ) × Has t (types_of uses) × Reach table t u))
    × (h.error_count ≡ total (λ u. lower_in ascii_upper (kind table u)) (length table) h)
    × (length h.printed ≡ h.error_count)
types_checked_once_example =
    types_checked_once ascii_upper table 5 counting table-IsTable (omega arith) uses
      (record { gob = 0 }, 0)
      (
        (entries, refl, omega arith),
        ((entries, refl, omega arith), ((reply, refl, omega arith), tt)),
      )

reply_not_blocked : is_blocked (leaves ascii_upper reply.value visible 1 []) ≡ false
unfolding leaves
reply_not_blocked = refl
