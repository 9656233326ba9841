-- ===== src/Labgob/Default/Found.antt =====
-- labgob/labgob.go: `checkDefault` reports the scalars of a value that are not zero.
use mathlib.Core.List.{append-nil, append_assoc}
use dist_kv_raft.Common.{
  ℕ, zero, suc, ◌+◌, ◌≤◌, ltb, leb, if◌then◌else◌, Bool, false, not, ◌&&◌, ◌||◌, Option, none, some,
  Bool-cases, inl, inr, List, [], ◌∷◌, ◌++◌, All, All-append, length, length-append, ◌≡◌, refl, sym,
  ap, ◌∙◌, arith,
}
use dist_kv_raft.Labgob.Capital.{and_then}
use dist_kv_raft.Labgob.Types.{
  Name, Scalar, Value, fields, null, points_to, single, plain, Fields, end, field, Line,
  non_default, Globals,
}
use dist_kv_raft.Labgob.Default.{
  Access, is_visible, field_access, is_zero, is_empty, field_path, check_scalar, check_default1,
  check_each,
}

-- A scalar somewhere in a value, how deep it lies, the name it is reported by, and how it is reached.
pub record Leaf : Type 0 where
  pub depth : ℕ
  pub label : Name
  pub content : Scalar
  pub access : Access

unfoldable mutual
  -- All scalars of a value, however deep.
  pub leaves : (ℕ → Bool) → Value → Access → ℕ → Name → List Leaf
  leaves is_upper (fields fs) access depth name = leaves_of is_upper fs access depth name
  leaves is_upper null access depth name = []
  leaves is_upper (points_to v) access depth name = leaves is_upper v access (suc depth) name
  leaves is_upper (single type_name content) access depth name =
      record {
        depth = depth;
        label = if is_empty name then type_name else name;
        content = content;
        access = access;
      }
      ∷ []
  leaves is_upper plain access depth name = []

  pub leaves_of : (ℕ → Bool) → Fields → Access → ℕ → Name → List Leaf
  leaves_of is_upper end access depth name = []
  leaves_of is_upper (field name1 is_embedded v fs) access depth name =
      leaves is_upper v (field_access is_upper access name1 is_embedded) (suc depth)
        (field_path name name1)
      ++ leaves_of is_upper fs access depth name

-- Whether a scalar at most three levels deep is reached through a field that is not exported.
abbrev pub is_blocked : List Leaf → Bool
is_blocked [] = false
is_blocked (leaf ∷ rest) = (leb leaf.depth 3 && not (is_visible leaf.access)) || is_blocked rest

-- Not deeper than three levels, and not zero.
abbrev is_found : Leaf → Bool
is_found leaf = leb leaf.depth 3 && not (is_zero leaf.content)

abbrev pub found : List Leaf → List Leaf
found [] = []
found (leaf ∷ rest) = if is_found leaf then leaf ∷ found rest else found rest

-- Only an error that is the first of the process is printed.
abbrev pub first_line : ℕ → List Leaf → List Line
first_line errors [] = []
first_line errors (leaf ∷ rest) = if ltb errors 1 then non_default leaf.label ∷ [] else []

abbrev pub report : List Leaf → Globals → Globals
report ls g = record g {
  error_count = g.error_count + length ls;
  printed = g.printed ++ first_line g.error_count ls;
}

report_nothing : (g : Globals) → report [] g ≡ g
report_nothing g = ground (arith, append-nil g.printed)

lines_split :
    (e : ℕ) (xs ys : List Leaf)
    → first_line e xs ++ first_line (e + length xs) ys ≡ first_line e (xs ++ ys)
lines_split e [] ys = ap (λ n. first_line n ys) (omega arith)
lines_split e (x ∷ xs) [] = append-nil (first_line e (x ∷ xs))
lines_split e (x ∷ xs) (y ∷ ys) = ground (arith, append-nil (first_line e (x ∷ xs)))

report-report : (xs ys : List Leaf) (g : Globals) → report ys (report xs g) ≡ report (xs ++ ys) g
report-report xs ys g = ground (
  arith,
  lines_split g.error_count xs ys,
  append_assoc g.printed (first_line g.error_count xs) (first_line (g.error_count + length xs) ys),
  length-append xs ys,
)

found-append : (xs ys : List Leaf) → found (xs ++ ys) ≡ found xs ++ found ys
found-append [] ys = refl
found-append (x ∷ xs) ys = ground (arith, found-append xs ys)

is_blocked-append : (xs ys : List Leaf) → is_blocked (xs ++ ys) ≡ (is_blocked xs || is_blocked ys)
is_blocked-append [] ys = refl
is_blocked-append (x ∷ xs) ys = ground (arith, is_blocked-append xs ys)

-- The panic, or the report.
abbrev outcome : List Leaf → Globals → Option Globals
outcome ls g = if is_blocked ls then none else some (report (found ls) g)

outcome-append :
    (xs ys : List Leaf) (g : Globals) → and_then (outcome xs g) (outcome ys) ≡ outcome (xs ++ ys) g
outcome-append xs ys g = elim (Bool-cases (is_blocked xs)) [
  | inl stops ↦ ground (arith, stops, is_blocked-append xs ys)
  | inr goes ↦
      ap (λ (b : Bool). and_then (if b then none else some (report (found xs) g)) (outcome ys)) goes
      ∙ ap (λ (b : Bool). if b then none else some (report (found ys) (report (found xs) g)))
          (ground (arith, goes, is_blocked-append xs ys))
      ∙ ap (λ (k : Globals). if is_blocked (xs ++ ys) then none else some k)
          (report-report (found xs) (found ys) g
            ∙ ap (λ ls. report ls g) (sym (found-append xs ys)))
]

follow :
    (o : Option Globals) (j k : Globals → Option Globals)
    → ((g : Globals) → j g ≡ k g)
    → and_then o j ≡ and_then o k
follow none j k same = refl
follow (some g) j k same = same g

abbrev IsDeep : ℕ → Leaf → Type 0
IsDeep n leaf = n ≤ leaf.depth

deep_outcome : (ls : List Leaf) (g : Globals) → All (IsDeep 4) ls → outcome ls g ≡ some g
deep_outcome ls g all =
    ap (λ (b : Bool). if b then none else some (report (found ls) g)) (deep_open ls all)
    ∙ ap (λ l. some (report l g)) (deep_not_found ls all)
    ∙ ap some (report_nothing g)
  where
    deep_open : (l : List Leaf) → All (IsDeep 4) l → is_blocked l ≡ false
    deep_open [] h = refl
    deep_open (x ∷ xs) h = ground (arith, h.0, deep_open xs h.1)

    deep_not_found : (l : List Leaf) → All (IsDeep 4) l → found l ≡ []
    deep_not_found [] h = refl
    deep_not_found (x ∷ xs) h = ground (arith, h.0, deep_not_found xs h.1)

module _ (is_upper : ℕ → Bool) where
  mutual
    unfolding leaves

    deep :
        (v : Value) (access : Access) (n depth : ℕ) (name : Name)
        → n ≤ depth
        → All (IsDeep n) (leaves is_upper v access depth name)
    deep (fields fs) access n depth name h = IsDeep-of fs access n depth name h
    deep null access n depth name h = tt
    deep (points_to v) access n depth name h = deep v access n (suc depth) name (omega arith)
    deep (single type_name content) access n depth name h = (h, tt)
    deep plain access n depth name h = tt

    IsDeep-of :
        (fs : Fields) (access : Access) (n depth : ℕ) (name : Name)
        → n ≤ depth
        → All (IsDeep n) (leaves_of is_upper fs access depth name)
    IsDeep-of end access n depth name h = tt
    IsDeep-of (field name1 is_embedded v fs) access n depth name h =
        let own = field_access is_upper access name1 is_embedded in
        All-append (IsDeep n) (leaves is_upper v own (suc depth) (field_path name name1))
          (leaves_of is_upper fs access depth name)
          (deep v own n (suc depth) (field_path name name1) (omega arith))
          (IsDeep-of fs access n depth name h)

  scalar_reported :
      (access : Access) (type_name name : Name) (content : Scalar) (depth : ℕ) (g : Globals)
      → depth ≤ 3
      → check_scalar access type_name name content g
        ≡ outcome (leaves is_upper (single type_name content) access depth name) g
  unfolding check_scalar leaves
  scalar_reported access type_name name content depth g h = ground (arith, append-nil g.printed)

  mutual
    unfolding check_default1 check_each leaves

    default1_reports :
        (v : Value) (access : Access) (room depth : ℕ) (name : Name) (g : Globals)
        → room + depth ≡ 4
        → check_default1 is_upper v access room name g
          ≡ outcome (leaves is_upper v access depth name) g
    default1_reports v access zero depth name g h = sym (
        deep_outcome (leaves is_upper v access depth name) g
          (deep v access 4 depth name (omega arith)))
    default1_reports (fields fs) access (suc room) depth name g h =
        each_reports fs access room depth name g h
    default1_reports null access (suc room) depth name g h = ap some (sym (report_nothing g))
    default1_reports (points_to v) access (suc room) depth name g h =
        default1_reports v access room (suc depth) name g (omega arith)
    default1_reports (single type_name content) access (suc room) depth name g h =
        scalar_reported access type_name name content depth g (omega arith)
    default1_reports plain access (suc room) depth name g h = ap some (sym (report_nothing g))

    each_reports :
        (fs : Fields) (access : Access) (room depth : ℕ) (name : Name) (g : Globals)
        → suc room + depth ≡ 4
        → check_each is_upper fs access room name g
          ≡ outcome (leaves_of is_upper fs access depth name) g
    each_reports end access room depth name g h = ap some (sym (report_nothing g))
    each_reports (field name1 is_embedded v fs) access room depth name g h =
        let path = field_path name name1 in
        let own = field_access is_upper access name1 is_embedded in
        let first = leaves is_upper v own (suc depth) path in
        let others = leaves_of is_upper fs access depth name in
        ap (λ o. and_then o (check_each is_upper fs access room name))
          (default1_reports v own room (suc depth) path g (omega arith))
        ∙ follow (outcome first g) (check_each is_upper fs access room name) (outcome others)
            (λ k. each_reports fs access room depth name k h)
        ∙ outcome-append first others g
