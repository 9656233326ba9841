-- ===== src/Labgob/Capital/Reached.antt =====
-- labgob/labgob.go: the types that a type is made of, and what a part of `checkType` brings about.
use dist_kv_raft.Common.{
  ℕ, ◌+◌, ◌<◌, if◌then◌else◌, Bool, true, false, List, [], ◌∷◌, ◌++◌, Has, length, ◌≡◌, arith, ◌⊎◌,
  inl, inr, Bool-cases,
}
use dist_kv_raft.Labgob.Types.{
  Field, GoType, struct, slice, array, pointer, mapping, scalar, other, Table, kind, Globals,
  is_checked,
}
use dist_kv_raft.Labgob.Capital.{first_rune}
use dist_kv_raft.Labgob.Capital.Marks.{total, Keeps}

abbrev pub field_types : List Field → List ℕ
field_types [] = []
field_types (f ∷ fs) = f.field_type ∷ field_types fs

-- The types that a type of this kind names.
abbrev pub parts : GoType → List ℕ
parts (struct fs) = field_types fs
parts (slice e) = e ∷ []
parts (array e) = e ∷ []
parts (pointer e) = e ∷ []
parts (mapping e k) = e ∷ k ∷ []
parts scalar = []
parts other = []

abbrev pub is_lower : (ℕ → Bool) → Field → ℕ
is_lower is_upper f = if is_upper (first_rune f.name) then 0 else 1

abbrev pub lower_fields : (ℕ → Bool) → List Field → ℕ
lower_fields is_upper [] = 0
lower_fields is_upper (f ∷ fs) = is_lower is_upper f + lower_fields is_upper fs

-- How many fields of a type of this kind are not capitalized.
abbrev pub lower_in : (ℕ → Bool) → GoType → ℕ
lower_in is_upper (struct fs) = lower_fields is_upper fs
lower_in is_upper (slice e) = 0
lower_in is_upper (array e) = 0
lower_in is_upper (pointer e) = 0
lower_in is_upper (mapping e k) = 0
lower_in is_upper scalar = 0
lower_in is_upper other = 0

abbrev pub IsTable : Table → Type 0
IsTable table = (u v : ℕ) → Has v (parts (kind table u)) → v < length table

module _ (table : Table) where
  -- Type `u` occurs in type `t`.
  pub data Reach (t : ℕ) : ℕ → Type 0 where
    here : Reach t t
    onward : {u v : ℕ} → Reach t u → Has v (parts (kind table u)) → Reach t v

  pub Reach-first : {t v u : ℕ} → Has v (parts (kind table t)) → Reach v u → Reach t u
  Reach-first has here = onward here has
  Reach-first has (onward r more) = onward (Reach-first has r) more

pub Has-append_inv :
    {A : Type 0} (x : A) (left right : List A) → Has x (left ++ right) → Has x left ⊎ Has x right
Has-append_inv x [] right h = inr h
Has-append_inv x (y ∷ ys) right (inl e) = inl (inl e)
Has-append_inv x (y ∷ ys) right (inr h) = elim (Has-append_inv x ys right h) [
  | inl l ↦ inl (inr l)
  | inr r ↦ inr r
]

pub Has-append_left :
    {A : Type 0} (x : A) (left right : List A) → Has x left → Has x (left ++ right)
Has-append_left x [] right h = elim h [ ]
Has-append_left x (y ∷ ys) right (inl e) = inl e
Has-append_left x (y ∷ ys) right (inr h) = inr (Has-append_left x ys right h)

pub Has-append_right :
    {A : Type 0} (x : A) (left right : List A) → Has x right → Has x (left ++ right)
Has-append_right x [] right h = h
Has-append_right x (y ∷ ys) right h = inr (Has-append_right x ys right h)

-- From `g` to `h` the types `roots` and what they are made of were marked, as far as they were not
-- before, and `due` complaints were made besides those on the types marked.
module _ (is_upper : ℕ → Bool) (table : Table) where
  pub record Covers (g h : Globals) (roots : List ℕ) (due : ℕ) : Type 0 where
    pub kept : Keeps g h
    pub marks : (r : ℕ) → Has r roots → is_checked r h ≡ true
    pub closed :
        (u v : ℕ)
        → is_checked u h ≡ true
        → is_checked u g ≡ false
        → Has v (parts (kind table u))
        → is_checked v h ≡ true
    pub reached :
        (u : ℕ)
        → is_checked u h ≡ true
        → (is_checked u g ≡ true) ⊎ ((r : ℕ) × Has r roots × Reach table r u)
    pub counted :
        h.error_count + total (λ u. lower_in is_upper (kind table u)) (length table) g
        ≡ g.error_count + total (λ u. lower_in is_upper (kind table u)) (length table) h + due
    pub lines : length h.printed + g.error_count ≡ length g.printed + h.error_count

  pub Covers-refl : (g : Globals) → Covers g g [] 0
  Covers-refl g = record {
    kept = λ u e. e;
    marks = λ r has. elim has [ ];
    closed = λ u v e f has. ground (arith, e, f);
    reached = λ u e. inl e;
    counted = omega arith;
    lines = omega arith;
  }

  pub Covers-append :
      (g h k : Globals) (rs ss : List ℕ) (a b : ℕ)
      → Covers g h rs a
      → Covers h k ss b
      → Covers g k (rs ++ ss) (a + b)
  Covers-append g h k rs ss a b c d = record {
    kept = λ u e. d.kept u (c.kept u e);
    marks = λ r has. elim (Has-append_inv r rs ss has) [
      | inl l ↦ d.kept r (c.marks r l)
      | inr l ↦ d.marks r l
    ];
    closed = λ u v e f has. elim (Bool-cases (is_checked u h)) [
      | inl before ↦ d.kept v (c.closed u v before f has)
      | inr later ↦ d.closed u v e later has
    ];
    reached = λ u e. elim (d.reached u e) [
      | inl before ↦ elim (c.reached u before) [
        | inl first ↦ inl first
        | inr (r, has, way) ↦ inr (r, Has-append_left r rs ss has, way)
      ]
      | inr (r, has, way) ↦ inr (r, Has-append_right r rs ss has, way)
    ];
    counted = omega (arith, c.counted, d.counted);
    lines = omega (arith, c.lines, d.lines);
  }
