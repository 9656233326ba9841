-- ===== src/Labgob/Default.antt =====
-- labgob/labgob.go: `checkDefault`, which warns of a reply that is not empty before it is decoded.
pub mod Found
use dist_kv_raft.Common.{
  ℕ, zero, suc, ◌+◌, ℤ, pos, negsuc, ltb, nat_beq, if◌then◌else◌, Bool, true, false, not, ◌&&◌,
  Option, none, some, List, [], ◌∷◌, ◌++◌,
}
use dist_kv_raft.Labgob.Capital.{first_rune, and_then}
use dist_kv_raft.Labgob.Types.{
  Name, Scalar, boolean, integer, float, text, Value, fields, null, points_to, single, plain,
  Fields, end, field, Item, Line, non_default, Globals,
}

-- `reflect.DeepEqual(reflect.Zero(t).Interface(), value.Interface())`; -0.0 equals 0.0.
unfoldable pub is_zero : Scalar → Bool
is_zero (boolean b) = not b
is_zero (integer (pos n)) = nat_beq n 0
is_zero (integer (negsuc n)) = false
is_zero (float sign rest) = nat_beq rest 0
is_zero (text []) = true
is_zero (text (rune ∷ runes)) = false

abbrev pub is_empty : Name → Bool
is_empty [] = true
is_empty (rune ∷ runes) = false

-- `name + "." + name1`, if there is a name before it.
unfoldable pub field_path : Name → Name → Name
field_path name name1 = if is_empty name then name1 else name ++ 46 ∷ name1

-- The flags of a `reflect.Value` that tell whether it was got through a field that is not exported:
-- an embedded one, or another one, which its fields inherit.
pub data Access : Type 0 where
  visible : Access
  embed_ro : Access
  sticky_ro : Access

abbrev pub is_visible : Access → Bool
is_visible visible = true
is_visible embed_ro = false
is_visible sticky_ro = false

-- What `value.Field(i)` makes of the flags of `value`.
abbrev pub field_access : (ℕ → Bool) → Access → Name → Bool → Access
field_access is_upper sticky_ro name1 is_embedded = sticky_ro
field_access is_upper visible name1 is_embedded =
    if is_upper (first_rune name1) then visible else if is_embedded then embed_ro else sticky_ro
field_access is_upper embed_ro name1 is_embedded =
    if is_upper (first_rune name1) then visible else if is_embedded then embed_ro else sticky_ro

-- What happens at a value of a kind that is compared; `none` is the panic of `value.Interface()`.
unfoldable pub check_scalar : Access → Name → Name → Scalar → Globals → Option Globals
unfolding is_zero
check_scalar access type_name name value g =
    if is_visible access
    then (if is_zero value
        then some g
        else some (record g {
          error_count = g.error_count + 1;
          printed =
              if ltb g.error_count 1
              then g.printed ++ non_default (if is_empty name then type_name else name) ∷ []
              else g.printed;
        }))
    else none

-- `room` is how many levels are left: `depth` is 4 - room, and `depth > 3` is room 0.
unfoldable mutual
  unfolding check_scalar field_path

  pub check_default1 : (ℕ → Bool) → Value → Access → ℕ → Name → Globals → Option Globals
  check_default1 is_upper v access zero name g = some g
  check_default1 is_upper (fields fs) access (suc room) name g =
      check_each is_upper fs access room name g
  check_default1 is_upper null access (suc room) name g = some g
  check_default1 is_upper (points_to v) access (suc room) name g =
      check_default1 is_upper v access room name g
  check_default1 is_upper (single type_name value) access (suc room) name g =
      check_scalar access type_name name value g
  check_default1 is_upper plain access (suc room) name g = some g

  -- The loop over the fields of a struct.
  pub check_each : (ℕ → Bool) → Fields → Access → ℕ → Name → Globals → Option Globals
  check_each is_upper end access room name g = some g
  check_each is_upper (field name1 is_embedded v fs) access room name g =
      and_then
        (check_default1 is_upper v (field_access is_upper access name1 is_embedded) room
          (field_path name name1) g)
        (check_each is_upper fs access room name)

-- `none` is a nil interface.
unfoldable pub check_default : (ℕ → Bool) → Option Item → Globals → Option Globals
unfolding check_default1
check_default is_upper none g = some g
check_default is_upper (some item) g = check_default1 is_upper item.value visible 3 [] g
