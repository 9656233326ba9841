-- ===== src/Labgob/Capital/Marking.antt =====
-- labgob/labgob.go: marking one type, seen as a step of the check.
use dist_kv_raft.Common.{
  ℕ, ◌+◌, ◌<◌, lt→ltb, if◌then◌else◌, Bool, true, false, [], ◌∷◌, Has, length, ◌≡◌, refl, sym, ap,
  ◌∙◌, subst, arith, inl, inr, Bool-cases,
}
use dist_kv_raft.Labgob.Types.{Table, kind, Globals, is_checked}
use dist_kv_raft.Labgob.Capital.{mark}
use dist_kv_raft.Labgob.Capital.Marks.{total, total-mark, Keeps-mark, marked, mark_inv}
use dist_kv_raft.Labgob.Capital.Reached.{parts, lower_in, Reach, here, Reach-first, Covers}

module _ (is_upper : ℕ → Bool) (table : Table) where
  kind_weight : ℕ → ℕ
  kind_weight u = lower_in is_upper (kind table u)

  total_marked :
      (t : ℕ) (g : Globals)
      → is_checked t g ≡ false
      → t < length table
      → total kind_weight (length table) (mark t g)
        ≡ total kind_weight (length table) g + kind_weight t
  total_marked t g fresh lt =
      total-mark t g fresh kind_weight (length table)
      ∙ ap (λ b. total kind_weight (length table) g + (if b then kind_weight t else 0))
          (lt→ltb t (length table) lt)

  pub Covers-mark :
      (t : ℕ) (g h : Globals)
      → is_checked t g ≡ false
      → t < length table
      → Covers is_upper table (mark t g) h (parts (kind table t)) (lower_in is_upper (kind table t))
      → Covers is_upper table g h (t ∷ []) 0
  unfolding mark kind_weight
  Covers-mark t g h fresh lt c = record {
    kept = λ u e. c.kept u (Keeps-mark t g u e);
    marks = λ r has. elim has [
      | inl e ↦ subst (λ x. is_checked x h ≡ true) (sym e) (c.kept t (marked t g))
      | inr rest ↦ elim rest [ ]
    ];
    closed = λ u v e new has. elim (Bool-cases (is_checked u (mark t g))) [
      | inl now ↦ elim (mark_inv u t g now) [
        | inl same ↦ c.marks v (subst (λ x. Has v (parts (kind table x))) same has)
        | inr old ↦ ground (arith, old, new)
      ]
      | inr later ↦ c.closed u v e later has
    ];
    reached = λ u e. elim (c.reached u e) [
      | inl now ↦ elim (mark_inv u t g now) [
        | inl same ↦ inr (t, inl refl, subst (λ x. Reach table t x) (sym same) here)
        | inr old ↦ inl old
      ]
      | inr (r, has, way) ↦ inr (t, inl refl, Reach-first table has way)
    ];
    counted = omega (arith, c.counted, total_marked t g fresh lt);
    lines = c.lines;
  }

  pub Covers-checked :
      (t : ℕ) (g : Globals) → is_checked t g ≡ true → Covers is_upper table g g (t ∷ []) 0
  Covers-checked t g e = record {
    kept = λ u z. z;
    marks = λ r has. elim has [
      | inl same ↦ subst (λ x. is_checked x g ≡ true) (sym same) e
      | inr rest ↦ elim rest [ ]
    ];
    closed = λ u v z f has. ground (arith, z, f);
    reached = λ u z. inl z;
    counted = omega arith;
    lines = omega arith;
  }
