-- ===== src/Labgob/Capital/Marks.antt =====
-- labgob/labgob.go: the marks of `checkType`, and sums over the types that carry one.
use dist_kv_raft.Common.{
  ℕ, zero, suc, ◌+◌, ◌≤◌, ltb, ◌==◌, nat_eq, if◌then◌else◌, true, false, lookup-insert, ◌≡◌, refl,
  ap, arith, ◌⊎◌, inl, inr, Bool-cases,
}
use dist_kv_raft.Labgob.Types.{Globals, start, is_checked}
use dist_kv_raft.Labgob.Capital.{mark}

pub is_checked-mark :
    (u t : ℕ) (g : Globals) → is_checked u (mark t g) ≡ (if t == u then true else is_checked u g)
unfolding is_checked mark
is_checked-mark u t g = ground (arith, lookup-insert t u true g.checked)

-- The sum of `w` over the types below `n` that are marked.
abbrev pub total : (ℕ → ℕ) → ℕ → Globals → ℕ
total w zero g = 0
total w (suc n) g = (if is_checked n g then w n else 0) + total w n g

-- The number of types below `n` that are not.
abbrev pub unchecked : ℕ → Globals → ℕ
unchecked zero g = 0
unchecked (suc n) g = (if is_checked n g then 0 else 1) + unchecked n g

module _ (t : ℕ) (g : Globals) (fresh : is_checked t g ≡ false) where
  pub total-mark :
      (w : ℕ → ℕ) (n : ℕ) → total w n (mark t g) ≡ total w n g + (if ltb t n then w t else 0)
  total-mark w zero = ground arith
  total-mark w (suc n) =
      ground (arith, fresh, total-mark w n, is_checked-mark n t g, ap w {x = t} {y = n})

  pub unchecked-mark : (n : ℕ) → unchecked n g ≡ unchecked n (mark t g) + (if ltb t n then 1 else 0)
  unchecked-mark zero = ground arith
  unchecked-mark (suc n) = ground (arith, fresh, unchecked-mark n, is_checked-mark n t g)

abbrev pub Keeps : Globals → Globals → Type 0
Keeps g h = (u : ℕ) → is_checked u g ≡ true → is_checked u h ≡ true

pub unchecked_mono : (n : ℕ) (g h : Globals) → Keeps g h → unchecked n h ≤ unchecked n g
unchecked_mono zero g h k = omega arith
unchecked_mono (suc n) g h k = ground (arith, k n, unchecked_mono n g h k)

pub Keeps-mark : (t : ℕ) (g : Globals) → Keeps g (mark t g)
Keeps-mark t g u e = ground (arith, is_checked-mark u t g)

pub marked : (t : ℕ) (g : Globals) → is_checked t (mark t g) ≡ true
marked t g = ground (arith, is_checked-mark t t g)

pub mark_inv :
    (u t : ℕ) (g : Globals) → is_checked u (mark t g) ≡ true → (u ≡ t) ⊎ (is_checked u g ≡ true)
mark_inv u t g e = elim (Bool-cases (t == u)) [
  | inl same ↦ inl (ground (arith, same))
  | inr differs ↦ inr (ground (arith, is_checked-mark u t g, differs))
]

pub unchecked_bound : (n : ℕ) (g : Globals) → unchecked n g ≤ n
unchecked_bound zero g = omega arith
unchecked_bound (suc n) g = ground (arith, unchecked_bound n g)

pub total_at_start : (w : ℕ → ℕ) (n : ℕ) → total w n start ≡ 0
unfolding is_checked
total_at_start w zero = refl
total_at_start w (suc n) = ground (arith, total_at_start w n)
