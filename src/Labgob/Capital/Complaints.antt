-- ===== src/Labgob/Capital/Complaints.antt =====
-- labgob/labgob.go: the complaint about one field.
use dist_kv_raft.Common.{
  ℕ, zero, suc, ◌+◌, Bool, [], ◌∷◌, length, length-append, ◌≡◌, refl, sym, ◌∙◌, arith, inl,
}
use dist_kv_raft.Labgob.Types.{Field, Table, kind, lower_case, Globals, is_checked}
use dist_kv_raft.Labgob.Capital.{complain}
use dist_kv_raft.Labgob.Capital.Marks.{total}
use dist_kv_raft.Labgob.Capital.Reached.{is_lower, lower_in, Covers}

module _ (is_upper : ℕ → Bool) (table : Table) where
  is_checked-complain :
      (u t : ℕ) (f : Field) (g : Globals)
      → is_checked u (complain is_upper table t f g) ≡ is_checked u g
  unfolding complain is_checked
  is_checked-complain u t f g = ground arith

  total-complain :
      (w : ℕ → ℕ) (n t : ℕ) (f : Field) (g : Globals)
      → total w n (complain is_upper table t f g) ≡ total w n g
  total-complain w zero t f g = refl
  total-complain w (suc n) t f g =
      ground (arith, is_checked-complain n t f g, total-complain w n t f g)

  complain_counts :
      (t : ℕ) (f : Field) (g : Globals)
      → (complain is_upper table t f g).error_count ≡ g.error_count + is_lower is_upper f
  unfolding complain
  complain_counts t f g = ground arith

  complain_lines :
      (t : ℕ) (f : Field) (g : Globals)
      → length (complain is_upper table t f g).printed ≡ length g.printed + is_lower is_upper f
  unfolding complain
  complain_lines t f g = ground (arith, length-append g.printed (lower_case f.name t ∷ []))

  pub complain-Covers :
      (t : ℕ) (f : Field) (g : Globals)
      → Covers is_upper table g (complain is_upper table t f g) [] (is_lower is_upper f)
  complain-Covers t f g = record {
    kept = λ u e. is_checked-complain u t f g ∙ e;
    marks = λ r has. elim has [ ];
    closed = λ u v e new has. ground (arith, e, new, is_checked-complain u t f g);
    reached = λ u e. inl (sym (is_checked-complain u t f g) ∙ e);
    counted = omega (
      arith,
      complain_counts t f g,
      total-complain (λ u. lower_in is_upper (kind table u)) (length table) t f g,
    );
    lines = omega (arith, complain_counts t f g, complain_lines t f g);
  }
