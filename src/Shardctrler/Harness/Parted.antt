-- ===== src/Shardctrler/Harness/Parted.antt =====
-- shardctrler/config.go: `partition` lets servers call each other within a side only.
use dist_kv_raft.Common.{
  ℕ, suc, ◌==◌, nat_eq, string_eq, beq_refl, if◌then◌else◌, Bool, true, false, ◌&&◌, ◌||◌, List, [],
  ◌∷◌, String, ◌≡◌, sym, ap, ◌∙◌, arith, Bool-cases, inl, inr,
}
use dist_kv_raft.Labrpc.Network.{Network, enable}
use dist_kv_raft.Raft.Wiring.Loops.{is_on, on_enabled}
use dist_kv_raft.Raft.Wiring.Partition.{AreNames}
use dist_kv_raft.Shardctrler.Harness.{
  set_ends, drop_incoming, connect_unlocked, disconnect_unlocked, part_side, partition,
}

abbrev pub mem : ℕ → List ℕ → Bool
mem x [] = false
mem x (y ∷ ys) = y == x || mem x ys

-- A call between the sides, in one of the two directions.
abbrev pub touches : ℕ → ℕ → List ℕ → List ℕ → Bool
touches a b left side = mem a left && mem b side || mem b left && mem a side

-- The two steps for one server, and then those for the rest of the side.
both_steps :
    (ia ib la lb oa ob na nb old : Bool)
    → ((ia || la) ≡ true → oa ≡ true)
    → ((ib || lb) ≡ true → ob ≡ true)
    → (oa ≡ true → na ≡ false)
    → (ob ≡ true → nb ≡ false)
    → (if la && ob || lb && oa
        then true
        else if la && nb || lb && na
        then false
        else if ia && ob || ib && oa
        then true
        else if ia && nb || ib && na
        then false
        else old)
      ≡ (if (ia || la) && ob || (ib || lb) && oa
          then true
          else if (ia || la) && nb || (ib || lb) && na
          then false
          else old)
both_steps true ib la lb oa ob na nb old pa pb qa qb = ground (arith, pa, pb, qa, qb)
both_steps false ib la lb oa ob na nb old pa pb qa qb = ground (arith, pa, pb, qa, qb)

module _ (name : ℕ → ℕ → String) (names : AreNames name) where
  same_name : (a b c d : ℕ) → (name c d == name a b) ≡ (c == a && d == b)
  same_name a b c d = elim (Bool-cases (name c d == name a b)) [
    | inl same ↦
        let e = names c d a b ((string_eq.equal_iff (name c d) (name a b)).0 same) in
        same ∙ ground (arith, e.0, e.1)
    | inr differs ↦ elim (Bool-cases (c == a && d == b)) [
      | inl t ↦ ground (
        arith,
        t,
        differs,
        beq_refl (name a b),
        ap (λ k. name k d) {x = c} {y = a},
        ap (name a) {x = d} {y = b},
      )
      | inr f ↦ differs ∙ sym f
    ]
  ]

  on_named :
      (a b c d : ℕ) (on : Bool) (rn : Network)
      → is_on (name a b) (enable (name c d) on rn)
        ≡ (if c == a && d == b then on else is_on (name a b) rn)
  on_named a b c d on rn =
      on_enabled (name a b) (name c d) on rn
      ∙ ap (λ t. if t then on else is_on (name a b) rn) (same_name a b c d)

  out_ends :
      (a b i : ℕ) (on : Bool) (js : List ℕ) (rn : Network)
      → is_on (name a b) (set_ends on (name i) js rn)
        ≡ (if i == a && mem b js then on else is_on (name a b) rn)
  unfolding set_ends
  out_ends a b i on [] rn = ground arith
  out_ends a b i on (j ∷ js) rn =
      out_ends a b i on js (enable (name i j) on rn) ∙ ground (arith, on_named a b i j on rn)

  in_ends :
      (a b i : ℕ) (on : Bool) (js : List ℕ) (rn : Network)
      → is_on (name a b) (set_ends on (λ j. name j i) js rn)
        ≡ (if i == b && mem a js then on else is_on (name a b) rn)
  unfolding set_ends
  in_ends a b i on [] rn = ground arith
  in_ends a b i on (j ∷ js) rn =
      in_ends a b i on js (enable (name j i) on rn) ∙ ground (arith, on_named a b j i on rn)

  module _ (has_row : ℕ → Bool) (all_rows : (j : ℕ) → has_row j ≡ true) where
    dropped :
        (a b i j : ℕ) (from : List ℕ) (rn : Network)
        → is_on (name a b) (drop_incoming name has_row i j from rn)
          ≡ (if i == b && mem a from then false else is_on (name a b) rn)
    unfolding drop_incoming
    dropped a b i j [] rn = ground arith
    dropped a b i j (f ∷ from) rn =
        dropped a b i (suc j) from (if has_row j then enable (name f i) false rn else rn)
        ∙ ground (arith, all_rows j, on_named a b f i false rn)

    connected :
        (a b i : ℕ) (to : List ℕ) (rn : Network)
        → is_on (name a b) (connect_unlocked name has_row i to rn)
          ≡ (if i == a && mem b to || i == b && mem a to then true else is_on (name a b) rn)
    unfolding connect_unlocked
    connected a b i to rn =
        in_ends a b i true to (set_ends true (name i) to rn)
        ∙ ground (arith, out_ends a b i true to rn)

    disconnected :
        (a b i : ℕ) (from : List ℕ) (rn : Network)
        → is_on (name a b) (disconnect_unlocked name has_row i from rn)
          ≡ (if i == a && mem b from || i == b && mem a from then false else is_on (name a b) rn)
    unfolding disconnect_unlocked
    disconnected a b i from rn =
        dropped a b i 0 from (if has_row i then set_ends false (name i) from rn else rn)
        ∙ ground (arith, all_rows i, out_ends a b i false from rn)

    -- The servers of `left` are on the side `own`, and nobody is on both sides.
    abbrev IsSide : List ℕ → List ℕ → List ℕ → Type 0
    IsSide left own others =
        ((x : ℕ) → mem x left ≡ true → mem x own ≡ true)
        × ((x : ℕ) → mem x own ≡ true → mem x others ≡ false)

    side_parted :
        (a b : ℕ) (left own others : List ℕ) (rn : Network)
        → IsSide left own others
        → is_on (name a b) (part_side name has_row left own others rn) ≡ (
            if touches a b left own
            then true
            else if touches a b left others
            then false
            else is_on (name a b) rn)
    unfolding part_side
    side_parted a b [] own others rn side = ground arith
    side_parted a b (i ∷ left) own others rn side =
        let mid =
          connect_unlocked name has_row i own (disconnect_unlocked name has_row i others rn) in
        side_parted a b left own others mid (λ x e. side.0 x (ground (arith, e)), side.1)
        ∙ ap
            (λ v.
              if touches a b left own then true else if touches a b left others then false else v)
            (connected a b i own (disconnect_unlocked name has_row i others rn)
              ∙ ap (λ v. if i == a && mem b own || i == b && mem a own then true else v)
                  (disconnected a b i others rn))
        ∙ both_steps (i == a) (i == b) (mem a left) (mem b left) (mem a own) (mem b own)
            (mem a others) (mem b others) (is_on (name a b) rn) (side.0 a) (side.0 b) (side.1 a)
            (side.1 b)

    -- Let the ends have names of their own, all rows of names be there, and no server be on both
    -- sides. After `partition` the end from a to b is enabled if both are on one side, disabled if
    -- each is on another, and as before if one of them is on no side.
    pub partition_parts :
        (p1 p2 : List ℕ) (rn : Network) (a b : ℕ)
        → ((x : ℕ) → mem x p1 ≡ true → mem x p2 ≡ false)
        → is_on (name a b) (partition name has_row p1 p2 rn) ≡ (
            if mem a p1 && mem b p1 || mem a p2 && mem b p2
            then true
            else if mem a p1 && mem b p2 || mem a p2 && mem b p1
            then false
            else is_on (name a b) rn)
    unfolding partition
    partition_parts p1 p2 rn a b apart =
        side_parted a b p2 p2 p1 (part_side name has_row p1 p1 p2 rn) (
          λ x e. e,
          λ x e. elim (Bool-cases (mem x p1)) [
            | inl both ↦ ground (arith, e, apart x both)
            | inr other ↦ other
          ],
        )
        ∙ ap (λ v. if touches a b p2 p2 then true else if touches a b p2 p1 then false else v)
            (side_parted a b p1 p1 p2 rn (λ x e. e, apart))
        ∙ ground (arith, apart a, apart b)
