-- ===== src/Labgob/Capital.antt =====
-- labgob/labgob.go: `checkType`, which warns of fields that are not capitalized. `is_upper` is
-- `unicode.IsUpper`. The lock guards each read and write of the globals; one call is modelled.
pub mod Marks
pub mod Reached
mod Complaints
mod Marking
pub mod Calls
use dist_kv_raft.Common.{
  ℕ, zero, suc, ◌+◌, if◌then◌else◌, Bool, true, false, Option, none, some, List, [], ◌∷◌, ◌++◌,
  nat_eq, insert, length,
}
use dist_kv_raft.Labgob.Types.{
  Name, Field, GoType, struct, slice, array, pointer, mapping, scalar, other, Table, kind, Line,
  lower_case, Globals, is_checked,
}

-- `utf8.DecodeRuneInString`, with RuneError for an empty text.
abbrev pub first_rune : Name → ℕ
first_rune [] = 0xFFFD
first_rune (rune ∷ rest) = rune

-- `checked[t] = true`
unfoldable pub mark : ℕ → Globals → Globals
mark t g = record g { checked = insert t true g.checked }

abbrev pub and_then : Option Globals → (Globals → Option Globals) → Option Globals
and_then none k = none
and_then (some g) k = k g

module _ (is_upper : ℕ → Bool) (table : Table) where
  -- The complaint about a field of struct `t`.
  unfoldable pub complain : ℕ → Field → Globals → Globals
  complain t f g = if is_upper (first_rune f.name) then g else record g {
    error_count = g.error_count + 1;
    printed = g.printed ++ lower_case f.name t ∷ [];
  }

  -- The loop over the fields; `check` is the recursive call.
  unfoldable pub check_fields :
      (ℕ → Globals → Option Globals) → ℕ → List Field → Globals → Option Globals
  unfolding complain
  check_fields check t [] g = some g
  check_fields check t (f ∷ fs) g =
      and_then (check f.field_type (complain t f g)) (check_fields check t fs)

  -- The switch on the kind.
  unfoldable pub check_parts :
      (ℕ → Globals → Option Globals) → ℕ → GoType → Globals → Option Globals
  unfolding check_fields
  check_parts check t (struct fs) g = check_fields check t fs g
  check_parts check t (slice e) g = check e g
  check_parts check t (array e) g = check e g
  check_parts check t (pointer e) g = check e g
  check_parts check t (mapping e k) g = and_then (check e g) (check k)
  check_parts check t scalar g = some g
  check_parts check t other g = some g

  -- With fuel for the depth of the recursion.
  unfoldable pub check_type : ℕ → ℕ → Globals → Option Globals
  unfolding check_parts mark
  check_type zero t g = none
  check_type (suc fuel) t g =
      let rest = check_parts (check_type fuel) t (kind table t) (mark t g) in
      if is_checked t g then some g else rest
