-- ===== src/Shardctrler/Harness/Halves.antt =====
-- shardctrler/config.go: `make_partition` deals out an odd number of servers.
use mathlib.Core.List.{append_assoc, append-nil}
use dist_kv_raft.Common.{
  ℕ, zero, suc, ◌+◌, ◌-◌, ◌*◌, ◌/◌, ◌≤◌, ◌<◌, ltb, ◌==◌, nat_eq, if◌then◌else◌, Bool, true, false,
  Option, none, some, List, [], ◌∷◌, ◌++◌, set, replicate, get_elem?, get_elem?-set_self, length,
  length-set, length-append, length-replicate, ◌≡◌, refl, sym, ap, ◌∙◌, subst, arith, inl, inr,
  Bool-cases,
}
use dist_kv_raft.Shardctrler.Harness.{leader, place, put_last, make_partition}

-- The numbers from `i` on, without `l`.
abbrev pub others : ℕ → ℕ → ℕ → List ℕ
others zero i l = []
others (suc left) i l = if i == l then others left (suc i) l else i ∷ others left (suc i) l

set_left : (p1 p2 : List ℕ) (j v : ℕ) → j < length p1 → set p1 j v ++ p2 ≡ set (p1 ++ p2) j v
set_left [] p2 j v lt = absurd (omega arith)
set_left (p ∷ p1) p2 zero v lt = refl
set_left (p ∷ p1) p2 (suc j) v lt = ap (λ l. p ∷ l) (set_left p1 p2 j v (omega arith))

set_right :
    (p1 p2 : List ℕ) (j v : ℕ) → length p1 ≤ j → p1 ++ set p2 (j - length p1) v ≡ set (p1 ++ p2) j v
set_right [] p2 j v le = ap (λ k. set p2 k v) (omega arith)
set_right (p ∷ p1) p2 zero v le = absurd (omega arith)
set_right (p ∷ p1) p2 (suc j) v le =
    ap (λ l. p ∷ l) (ap (λ k. p1 ++ set p2 k v) (omega arith) ∙ set_right p1 p2 j v (omega arith))

set_at :
    (done : List ℕ) (old : ℕ) (rest : List ℕ) (j v : ℕ)
    → j ≡ length done
    → set (done ++ old ∷ rest) j v ≡ (done ++ v ∷ []) ++ rest
set_at [] old rest zero v e = refl
set_at [] old rest (suc j) v e = absurd (omega arith)
set_at (d ∷ done) old rest zero v e = absurd (omega arith)
set_at (d ∷ done) old rest (suc j) v e = ap (λ l. d ∷ l) (set_at done old rest j v (omega arith))

module _ (left i j l : ℕ) (p1 p2 : List ℕ) where
  place_skips : (i == l) ≡ true → place (suc left) i j l p1 p2 ≡ place left (suc i) j l p1 p2
  unfolding place
  place_skips e = rw (place, e)

  place_first :
      (i == l) ≡ false
      → ltb j (length p1) ≡ true
      → place (suc left) i j l p1 p2 ≡ place left (suc i) (suc j) l (set p1 j i) p2
  unfolding place
  place_first e f = rw (place, e, f)

  place_second :
      (i == l) ≡ false
      → ltb j (length p1) ≡ false
      → place (suc left) i j l p1 p2 ≡ place left (suc i) (suc j) l p1 (set p2 (j - length p1) i)
  unfolding place
  place_second e f = rw (place, e, f)

-- The two sides are one array, whose start is `done` and `xs`.
record Written (r : List ℕ × List ℕ) (p1 p2 done rest xs : List ℕ) : Type 0 where
  tail : List ℕ
  flat : r.0 ++ r.1 ≡ (done ++ xs) ++ tail
  size : length tail + length xs ≡ length rest
  first : length r.0 ≡ length p1
  second : length r.1 ≡ length p2

one-Written :
    (r : List ℕ × List ℕ) (p1 p2 q1 q2 done rest xs : List ℕ) (i old : ℕ)
    → length q1 ≡ length p1
    → length q2 ≡ length p2
    → Written r q1 q2 (done ++ i ∷ []) rest xs
    → Written r p1 p2 done (old ∷ rest) (i ∷ xs)
one-Written r p1 p2 q1 q2 done rest xs i old e1 e2 w = record {
  tail = w.tail;
  flat = w.flat ∙ ap (λ d. d ++ w.tail) (append_assoc done (i ∷ []) xs);
  size = omega (arith, w.size);
  first = w.first ∙ e1;
  second = w.second ∙ e2;
}

place_writes :
    (left i j l : ℕ) (p1 p2 done rest : List ℕ)
    → j ≡ length done
    → p1 ++ p2 ≡ done ++ rest
    → length (others left i l) ≤ length rest
    → Written (place left i j l p1 p2) p1 p2 done rest (others left i l)
unfolding place
place_writes zero i j l p1 p2 done rest at flat room = record {
  tail = rest;
  flat = flat ∙ ap (λ d. d ++ rest) (sym (append-nil done));
  size = omega arith;
  first = refl;
  second = refl;
}
place_writes (suc left) i j l p1 p2 done rest at flat room = elim (Bool-cases (i == l)) [
  | inl skip ↦
      let xs : others (suc left) i l ≡ others left (suc i) l = ground (arith, skip) in
      subst (Written (place (suc left) i j l p1 p2) p1 p2 done rest) (sym xs) (
        subst (λ r. Written r p1 p2 done rest (others left (suc i) l))
          (sym (place_skips left i j l p1 p2 skip))
          (place_writes left (suc i) j l p1 p2 done rest at flat
            (subst (λ o. length o ≤ length rest) xs room)))
  | inr take ↦
      let xs : others (suc left) i l ≡ i ∷ others left (suc i) l = ground (arith, take) in
      subst (Written (place (suc left) i j l p1 p2) p1 p2 done rest) (sym xs) (
        write_one (others left (suc i) l) rest (subst (λ o. length o ≤ length rest) xs room) flat
          take
          (λ q1 q2 rest' f low.
            place_writes left (suc i) (suc j) l q1 q2 (done ++ i ∷ []) rest'
              (omega (arith, length-append done (i ∷ []))) f low))
]
  where
    write_one :
        (os rest : List ℕ)
        → length (i ∷ os) ≤ length rest
        → p1 ++ p2 ≡ done ++ rest
        → (i == l) ≡ false
        → ((q1 q2 rest' : List ℕ)
            → q1 ++ q2 ≡ (done ++ i ∷ []) ++ rest'
            → length os ≤ length rest'
            → Written (place left (suc i) (suc j) l q1 q2) q1 q2 (done ++ i ∷ []) rest' os)
        → Written (place (suc left) i j l p1 p2) p1 p2 done rest (i ∷ os)
    write_one os [] room flat take go = absurd (omega arith)
    write_one os (old ∷ rest') room flat take go = elim (Bool-cases (ltb j (length p1))) [
      | inl low ↦
          subst (λ r. Written r p1 p2 done (old ∷ rest') (i ∷ os))
            (sym (place_first left i j l p1 p2 take low))
            (one-Written _ p1 p2 (set p1 j i) p2 done rest' os i old (length-set p1 j i) refl (
              go (set p1 j i) p2 rest'
                (set_left p1 p2 j i (ground (arith, low))
                  ∙ ap (λ f. set f j i) flat
                  ∙ set_at done old rest' j i at)
                (omega arith)))
      | inr high ↦
          subst (λ r. Written r p1 p2 done (old ∷ rest') (i ∷ os))
            (sym (place_second left i j l p1 p2 take high))
            (one-Written _ p1 p2 p1 (set p2 (j - length p1) i) done rest' os i old refl
              (length-set p2 (j - length p1) i)
              (go p1 (set p2 (j - length p1) i) rest'
                (set_right p1 p2 j i (ground (arith, high))
                  ∙ ap (λ f. set f j i) flat
                  ∙ set_at done old rest' j i at)
                (omega arith)))
    ]

others_past : (left i l : ℕ) → l < i → length (others left i l) ≡ left
others_past zero i l lt = refl
others_past (suc left) i l lt = ground (arith, others_past left (suc i) l)

length-others : (left i l : ℕ) → i ≤ l → l < i + left → length (others left i l) + 1 ≡ left
length-others zero i l low high = absurd (omega arith)
length-others (suc left) i l low high = elim (Bool-cases (i == l)) [
  | inl here ↦ ground (arith, here, others_past left (suc i) l)
  | inr later ↦ ground (arith, later, length-others left (suc i) l)
]

leader-lt :
    (i : ℕ) (leads : List Bool)
    → ((leader i leads).0 ≡ false → (leader i leads).1 ≡ 0)
      × ((leader i leads).0 ≡ true → (leader i leads).1 < i + length leads)
unfolding leader
leader-lt i [] = (λ e. refl, λ e. ground (arith, e))
leader-lt i (true ∷ rest) = (λ e. ground (arith, e), λ e. omega arith)
leader-lt i (false ∷ rest) = let ih = leader-lt (suc i) rest in (ih.0, λ e. omega (arith, ih.1 e))

leader_below : (leads : List Bool) → 0 < length leads → (leader 0 leads).1 < length leads
leader_below leads pos = elim (Bool-cases (leader 0 leads).0) [
  | inl found ↦ omega (arith, (leader-lt 0 leads).1 found)
  | inr nobody ↦ omega (arith, (leader-lt 0 leads).0 nobody)
]

put_last-some :
    (l : ℕ) (ps : List ℕ) → 0 < length ps → put_last l ps ≡ some (set ps (length ps - 1) l)
put_last-some l [] pos = absurd (omega arith)
put_last-some l (p ∷ ps) pos = ap (λ k. some (set (p ∷ ps) k l)) (omega arith)

one_left : (tail : List ℕ) → length tail ≡ 1 → (t : ℕ) × (tail ≡ t ∷ [])
one_left [] e = absurd (omega arith)
one_left (t ∷ []) e = (t, refl)
one_left (t ∷ u ∷ us) e = absurd (omega arith)

-- For an odd number of servers, three at least, `make_partition` does not panic. The two sides
-- together are each server but the leader, in order, and then the leader (server 0 if none leads),
-- which is the last of the second side; this side is one server short of half.
pub make_partition_deals :
    (k : ℕ) (leads : List Bool)
    → 0 < k
    → length leads ≡ 2 * k + 1
    → (p1 : List ℕ) × (p2 : List ℕ) × (make_partition (2 * k + 1) leads ≡ some (p1, p2))
      × (p1 ++ p2 ≡ others (2 * k + 1) 0 (leader 0 leads).1 ++ (leader 0 leads).1 ∷ [])
      × (length p1 ≡ k + 1)
      × (length p2 ≡ k)
      × (get_elem? p2 (k - 1) ≡ some (leader 0 leads).1)
unfolding make_partition
make_partition_deals k leads pos size =
    let n = 2 * k + 1 in
    let half : n / 2 ≡ k = omega arith in
    let l = (leader 0 leads).1 in
    let below : l < n = omega (arith, leader_below leads (omega arith)) in
    let long : List ℕ = replicate (n / 2 + 1) 0 in
    let short : List ℕ = replicate (n / 2) 0 in
    let len1 : length long ≡ k + 1 = omega (arith, length-replicate {A = ℕ} (n / 2 + 1) 0) in
    let len2 : length short ≡ k = omega (arith, length-replicate {A = ℕ} (n / 2) 0) in
    let placed = place n 0 0 l long short in
    let total = length-append long short in
    let count = length-others n 0 l (omega arith) (omega arith) in
    let w = place_writes n 0 0 l long short [] (long ++ short) refl refl (omega arith) in
    let (t, is) = one_left w.tail (omega (arith, w.size)) in
    let full = put_last-some l placed.1 (omega (arith, w.second)) in
    let last = length placed.0 + (length placed.1 - 1) in
    let at : last - length placed.0 ≡ length placed.1 - 1 = omega arith in
    let end = length placed.1 - 1 in
    (
      placed.0,
      set placed.1 end l,
      ap
          (λ (o : Option (List ℕ)). elim o as (λ x. Option (List ℕ × List ℕ)) [
            | none ↦ none
            | some p ↦ some (placed.0, p)
          ])
          full,
      ap (λ m. placed.0 ++ set placed.1 m l) (sym at)
          ∙ set_right placed.0 placed.1 last l (omega arith)
          ∙ ap (λ f. set f last l) (w.flat ∙ ap (λ x. others n 0 l ++ x) is)
          ∙ set_at (others n 0 l) t [] last l (omega (arith, w.first, w.second))
          ∙ append-nil (others n 0 l ++ l ∷ []),
      omega (arith, w.first),
      omega (arith, w.second, length-set placed.1 end l),
      ap (get_elem? (set placed.1 end l)) (omega (arith, w.second))
          ∙ get_elem?-set_self placed.1 end l (omega (arith, w.second)),
    )
