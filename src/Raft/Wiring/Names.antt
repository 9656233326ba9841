-- ===== src/Raft/Wiring/Names.antt =====
-- raft/config.go: names of ends that all differ, for the examples.
use Prim.Native.Char.{code}
use Prim.Native.String.{String}
use dist_kv_raft.Common.{ℕ, zero, suc, ◌≡◌, ap, sym, ltb, arith, Bool, true, false}
use dist_kv_raft.Raft.Wiring.Partition.{AreNames}

-- A number in strokes, before the rest of a name.
abbrev pub tally : ℕ → String → String
tally zero rest = String.◌∷◌ "b" rest
tally (suc n) rest = String.◌∷◌ "a" (tally n rest)

abbrev pub end_name : ℕ → ℕ → String
end_name i j = tally i (tally j "")

-- Whether a name starts with a letter above "a".
abbrev ends_tally : String → Bool
ends_tally String.[] = false
ends_tally (String.◌∷◌ c rest) = ltb 97 (code c)

b_not_a : ¬ (true ≡ false)
b_not_a e = ground (arith, e)

pub tally_inj : (i j : ℕ) (s t : String) → tally i s ≡ tally j t → (i ≡ j) × (s ≡ t)
tally_inj zero zero s t e = ground (arith, e)
tally_inj zero (suc j) s t e = absurd (b_not_a (ap ends_tally e))
tally_inj (suc i) zero s t e = absurd (b_not_a (sym (ap ends_tally e)))
tally_inj (suc i) (suc j) s t e =
    let rest = tally_inj i j s t (ground (arith, e)) in (ap suc rest.0, rest.1)

pub end_name-AreNames : AreNames end_name
end_name-AreNames i j a b e =
    let first = tally_inj i a (tally j "") (tally b "") e in
    (first.0, (tally_inj j b "" "" first.1).0)
