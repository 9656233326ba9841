-- ===== src/Labgob/Types.antt =====
-- labgob/labgob.go: Go types and values as package reflect shows them, and the package's globals.
-- A type is known by its number in a table. A name is the list of its runes.
use dist_kv_raft.Common.{ℕ, ℤ, Bool, none, some, List, [], Dict, get_elem?, nat_eq, lookup}

abbrev pub Name : Type 0
Name = List ℕ

pub record Field : Type 0 where
  pub name : Name
  pub field_type : ℕ

-- The kinds that the package tells apart; `other` is any further kind.
pub data GoType : Type 0 where
  struct : List Field → GoType
  slice : ℕ → GoType
  array : ℕ → GoType
  pointer : ℕ → GoType
  mapping : (elem_type key_type : ℕ) → GoType
  scalar : GoType
  other : GoType

abbrev pub Table : Type 0
Table = List GoType

abbrev pub kind : Table → ℕ → GoType
kind table t = elim (get_elem? table t) [ none ↦ other | some k ↦ k ]

-- A value of a kind that `checkDefault1` compares with its zero. The bits of a float are its sign
-- and the rest.
pub data Scalar : Type 0 where
  boolean : Bool → Scalar
  integer : ℤ → Scalar
  float : Bool → ℕ → Scalar
  text : Name → Scalar

-- `plain` is a value of any other kind: a slice, a map, an interface, a channel. A value that
-- refers to itself is unfolded. A field has its name, and whether it is embedded.
mutual
  pub data Value : Type 0 where
    fields : Fields → Value
    null : Value
    points_to : Value → Value
    single : Name → Scalar → Value
    plain : Value

  pub data Fields : Type 0 where
    end : Fields
    field : Name → (is_embedded : Bool) → Value → Fields → Fields

-- A value in an `interface{}`, with its type.
pub record Item : Type 0 where
  pub item_type : ℕ
  pub value : Value

pub data Line : Type 0 where
  lower_case : Name → ℕ → Line
  non_default : Name → Line

-- `checked`, `errorCount`, and what has been printed.
pub record Globals : Type 0 where
  pub checked : Dict ℕ Bool
  pub error_count : ℕ
  pub printed : List Line

abbrev pub start : Globals
start = record { checked = []; error_count = 0; printed = [] }

-- `checked[t]`: a nil map and an empty one read alike.
unfoldable pub is_checked : ℕ → Globals → Bool
unfolding lookup
is_checked t g = elim (lookup t g.checked) [ none ↦ Bool.false | some b ↦ b ]
