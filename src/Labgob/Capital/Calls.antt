-- ===== src/Labgob/Capital/Calls.antt =====
-- labgob/labgob.go: `checkType` ends, and what it has marked and counted then.
use dist_kv_raft.Common.{
  ℕ, zero, suc, ◌+◌, ◌<◌, lt→ltb, Bool, true, false, Option, some, List, [], ◌∷◌, ◌++◌, Has, length,
  ◌≡◌, refl, ap, ◌∙◌, subst, arith, inl, inr, Bool-cases,
}
use dist_kv_raft.Labgob.Types.{
  Field, GoType, struct, slice, array, pointer, mapping, scalar, other, Table, kind, Globals,
  is_checked,
}
use dist_kv_raft.Labgob.Capital.{mark, complain, and_then, check_fields, check_parts, check_type}
use dist_kv_raft.Labgob.Capital.Marks.{unchecked, unchecked-mark, unchecked_mono}
use dist_kv_raft.Labgob.Capital.Marking.{Covers-mark, Covers-checked}
use dist_kv_raft.Labgob.Capital.Complaints.{complain-Covers}
use dist_kv_raft.Labgob.Capital.Reached.{
  field_types, parts, is_lower, lower_fields, lower_in, IsTable, Covers, Covers-refl, Covers-append,
}

module _ (is_upper : ℕ → Bool) (table : Table) where
  -- A run of a part of the check from `g`: it ends, in globals as `Covers` says.
  abbrev pub Ends : Globals → List ℕ → ℕ → Option Globals → Type 0
  Ends g roots due result = (h : Globals) × (result ≡ some h) × Covers is_upper table g h roots due

  then-Ends :
      (g h : Globals) (rs ss : List ℕ) (a b : ℕ) (result : Option Globals)
      → Covers is_upper table g h rs a
      → Ends h ss b result
      → (k : Globals) × (result ≡ some k) × Covers is_upper table g k (rs ++ ss) (a + b)
  then-Ends g h rs ss a b result c (k, e, d) =
      (k, e, Covers-append is_upper table g h k rs ss a b c d)

  due_is :
      {g h : Globals} {roots : List ℕ} {a : ℕ} (b : ℕ)
      → a ≡ b
      → Covers is_upper table g h roots a
      → Covers is_upper table g h roots b
  due_is {g} {h} {roots} b e c = subst (Covers is_upper table g h roots) e c

  -- What the induction on the fuel gives for the recursive calls.
  abbrev pub CallsEnd : ℕ → (ℕ → Globals → Option Globals) → Type 0
  CallsEnd fuel check =
      (t : ℕ) (g : Globals)
      → t < length table
      → unchecked (length table) g < fuel
      → Ends g (t ∷ []) 0 (check t g)

  abbrev AreTypes : List ℕ → Type 0
  AreTypes ts = (v : ℕ) → Has v ts → v < length table

  module _ (fuel : ℕ) (check : ℕ → Globals → Option Globals) (ends : CallsEnd fuel check) where
    -- A call, and then the rest.
    call_then :
        (t : ℕ) (g : Globals) (ss : List ℕ) (due : ℕ) (more : Globals → Option Globals)
        → t < length table
        → unchecked (length table) g < fuel
        → ((h : Globals) → unchecked (length table) h < fuel → Ends h ss due (more h))
        → Ends g (t ∷ ss) due (and_then (check t g) more)
    call_then t g ss due more lt low next =
        let (h, e, c) = ends t g lt low in
        let fewer = unchecked_mono (length table) g h c.kept in
        let (k, e', d) = next h (omega arith) in
        (
          k,
          ap (λ r. and_then r more) e ∙ e',
          due_is due (omega arith) (Covers-append is_upper table g h k (t ∷ []) ss 0 due c d),
        )

    fields_end :
        (fs : List Field) (t : ℕ) (g : Globals)
        → AreTypes (field_types fs)
        → unchecked (length table) g < fuel
        → Ends g
            (field_types fs)
            (lower_fields is_upper fs)
            (check_fields is_upper table check t fs g)
    unfolding check_fields
    fields_end [] t g types low = (g, refl, Covers-refl is_upper table g)
    fields_end (f ∷ fs) t g types low =
        let told = complain-Covers is_upper table t f g in
        let after = complain is_upper table t f g in
        let fewer = unchecked_mono (length table) g after told.kept in
        let (k, e, c) =
          call_then f.field_type after (field_types fs) (lower_fields is_upper fs)
            (check_fields is_upper table check t fs) (types f.field_type (inl refl)) (omega arith)
            (λ h low'. fields_end fs t h (λ v has. types v (inr has)) low') in
        (
          k,
          e,
          Covers-append is_upper table g after k [] (field_types (f ∷ fs)) (is_lower is_upper f)
              (lower_fields is_upper fs) told c,
        )

    one_end :
        (t : ℕ) (g : Globals)
        → AreTypes (t ∷ [])
        → unchecked (length table) g < fuel
        → Ends g (t ∷ []) 0 (check t g)
    one_end t g types low = ends t g (types t (inl refl)) low

    parts_end :
        (k : GoType) (t : ℕ) (g : Globals)
        → AreTypes (parts k)
        → unchecked (length table) g < fuel
        → Ends g (parts k) (lower_in is_upper k) (check_parts is_upper table check t k g)
    unfolding check_parts
    parts_end (struct fs) t g types low = fields_end fs t g types low
    parts_end (slice e) t g types low = one_end e g types low
    parts_end (array e) t g types low = one_end e g types low
    parts_end (pointer e) t g types low = one_end e g types low
    parts_end (mapping e k) t g types low =
        call_then e g (k ∷ []) 0 (check k) (types e (inl refl)) low
          (λ h low'. one_end k h (λ v has. types v (inr has)) low')
    parts_end scalar t g types low = (g, refl, Covers-refl is_upper table g)
    parts_end other t g types low = (g, refl, Covers-refl is_upper table g)

  checked_again :
      (fuel t : ℕ) (g : Globals)
      → is_checked t g ≡ true
      → check_type is_upper table (suc fuel) t g ≡ some g
  unfolding check_type
  checked_again fuel t g e = rw e

  checked_first :
      (fuel t : ℕ) (g : Globals)
      → is_checked t g ≡ false
      → check_type is_upper table (suc fuel) t g
        ≡ check_parts is_upper table (check_type is_upper table fuel) t (kind table t) (mark t g)
  unfolding check_type
  checked_first fuel t g e = rw e

  -- With fuel above the number of types not yet checked, `checkType` ends.
  pub check_type_ends : IsTable table → (fuel : ℕ) → CallsEnd fuel (check_type is_upper table fuel)
  check_type_ends closed zero t g lt low = absurd (omega arith)
  check_type_ends closed (suc fuel) t g lt low = elim (Bool-cases (is_checked t g)) [
    | inl old ↦ (g, checked_again fuel t g old, Covers-checked is_upper table t g old)
    | inr fresh ↦
        let here_less = unchecked-mark t g fresh (length table) in
        let below = lt→ltb t (length table) lt in
        let (h, e, c) =
          parts_end fuel (check_type is_upper table fuel) (check_type_ends closed fuel)
            (kind table t) t (mark t g) (closed t) (ground (arith, here_less, below)) in
        (h, checked_first fuel t g fresh ∙ e, Covers-mark is_upper table t g h fresh lt c)
  ]

  -- If the table has every type that one of its types names, `checkType` returns on each of its
  -- types, whatever is marked already, on fuel for more calls within one another than there are
  -- types not yet marked.
  pub check_type_terminates :
      (fuel t : ℕ) (g : Globals)
      → IsTable table
      → t < length table
      → unchecked (length table) g < fuel
      → (h : Globals) × (check_type is_upper table fuel t g ≡ some h) × (is_checked t h ≡ true)
  check_type_terminates fuel t g closed lt low =
      let (h, e, c) = check_type_ends closed fuel t g lt low in (h, e, c.marks t (inl refl))
