-- ===== src/Raft/Leaders/Collect.antt =====
-- raft/config.go: what is in the map of checkOneLeader, and what the loop over it finds.
use mathlib.Core.List.{append-nil, append_assoc}
use dist_kv_raft.Common.{
  ℕ, suc, ◌==◌, nat_eq, nat_beq_iff, if◌then◌else◌, Bool, false, ◌&&◌, none, some, List, [], ◌∷◌,
  ◌++◌, Dict, lookup, insert, lookup-insert, Has, All, if_elim, ◌<◌, length, length-append, ◌≡◌,
  refl, sym, ap, ◌∙◌, arith, inl, inr, Bool-cases, none≢some,
}
use dist_kv_raft.Raft.Leaders.{View, listed, collect}

module _ {V : Type 0} where
  -- No key stands twice.
  abbrev pub IsKeyed : Dict ℕ V → Type 0
  IsKeyed [] = Unit
  IsKeyed ((key, value) ∷ rest) = (lookup key rest ≡ none) × IsKeyed rest

  insert_absent :
      (other key : ℕ) (value : V) (dict : Dict ℕ V)
      → lookup other dict ≡ none
      → (other == key) ≡ false
      → lookup other (insert key value dict) ≡ none
  insert_absent other key value dict e differs =
      ground (arith, lookup-insert key other value dict, e, differs)

  pub insert-IsKeyed :
      (key : ℕ) (value : V) (dict : Dict ℕ V) → IsKeyed dict → IsKeyed (insert key value dict)
  unfolding insert lookup
  insert-IsKeyed key value [] keyed = (refl, tt)
  insert-IsKeyed key value ((other, old) ∷ rest) keyed = elim (Bool-cases (other == key)) [
    | inl same ↦
        rw same (ap (λ k. lookup k rest) (sym ((nat_beq_iff other key).0 same)) ∙ keyed.0, keyed.1)
    | inr differs ↦
        rw differs (
          insert_absent other key value rest keyed.0 differs,
          insert-IsKeyed key value rest keyed.1,
        )
  ]

  pub lookup_of_Has :
      (key : ℕ) (value : V) (dict : Dict ℕ V)
      → IsKeyed dict
      → Has (key, value) dict
      → lookup key dict ≡ some value
  unfolding lookup
  lookup_of_Has key value [] keyed has = absurd has
  lookup_of_Has key value ((other, old) ∷ rest) keyed (inl e) =
      ground (arith, ap (λ (p : ℕ × V). p.0) e, ap (λ (p : ℕ × V). p.1) e)
  lookup_of_Has key value ((other, old) ∷ rest) keyed (inr has) =
      let ih = lookup_of_Has key value rest keyed.1 has in
      ground
        (arith, ih, keyed.0, none≢some {a = value}, ap (λ k. lookup k rest) {x = other} {y = key})

  pub Has-of_lookup :
      (key : ℕ) (value : V) (dict : Dict ℕ V) → lookup key dict ≡ some value → Has (key, value) dict
  unfolding lookup
  Has-of_lookup key value [] e = absurd (none≢some e)
  Has-of_lookup key value ((other, old) ∷ rest) e = elim (Bool-cases (other == key)) [
    | inl same ↦ inl (ground (arith, same, e))
    | inr differs ↦ inr (Has-of_lookup key value rest (ground (arith, differs, e)))
  ]

abbrev pub is_lead : ℕ → View → Bool
is_lead term v = (v.connected && v.leader) && (v.term == term)

-- The connected servers, from number `i` on, that lead in a term.
abbrev pub leaders_in : ℕ → ℕ → List View → List ℕ
leaders_in term i [] = []
leaders_in term i (v ∷ vs) =
    if is_lead term v then i ∷ leaders_in term (suc i) vs else leaders_in term (suc i) vs

abbrev put_leader : ℕ → View → Dict ℕ (List ℕ) → Dict ℕ (List ℕ)
put_leader i v leaders =
    if v.connected && v.leader
    then insert v.term (listed (lookup v.term leaders) ++ i ∷ []) leaders
    else leaders

abbrev one_of : ℕ → ℕ → View → List ℕ
one_of term i v = if is_lead term v then i ∷ [] else []

listed-put :
    (term i : ℕ) (v : View) (leaders : Dict ℕ (List ℕ))
    → listed (lookup term (put_leader i v leaders))
      ≡ listed (lookup term leaders) ++ one_of term i v
listed-put term i v leaders = elim (Bool-cases (v.connected && v.leader)) [
  | inl leads ↦ elim (Bool-cases (v.term == term)) [
    | inl same ↦ ground (
      arith,
      leads,
      same,
      lookup-insert v.term term (listed (lookup v.term leaders) ++ i ∷ []) leaders,
      ap (λ t. listed (lookup t leaders)) ((nat_beq_iff v.term term).0 same),
    )
    | inr differs ↦ ground (
      arith,
      leads,
      differs,
      lookup-insert v.term term (listed (lookup v.term leaders) ++ i ∷ []) leaders,
      append-nil (listed (lookup term leaders)),
    )
  ]
  | inr idle ↦ ground (arith, idle, append-nil (listed (lookup term leaders)))
]

one_then :
    (term i : ℕ) (v : View) (vs : List View)
    → one_of term i v ++ leaders_in term (suc i) vs ≡ leaders_in term i (v ∷ vs)
one_then term i v vs = ground arith

-- In the map a term has the servers that lead in it.
pub listed-collect :
    (term i : ℕ) (vs : List View) (leaders : Dict ℕ (List ℕ))
    → listed (lookup term (collect i vs leaders))
      ≡ listed (lookup term leaders) ++ leaders_in term i vs
unfolding collect
listed-collect term i [] leaders = sym (append-nil (listed (lookup term leaders)))
listed-collect term i (v ∷ vs) leaders =
    listed-collect term (suc i) vs (put_leader i v leaders)
    ∙ ap (λ l. l ++ leaders_in term (suc i) vs) (listed-put term i v leaders)
    ∙ append_assoc (listed (lookup term leaders)) (one_of term i v) (leaders_in term (suc i) vs)
    ∙ ap (λ l. listed (lookup term leaders) ++ l) (one_then term i v vs)

-- The map has no empty list.
abbrev pub IsFull : Dict ℕ (List ℕ) → Type 0
IsFull = All (λ entry. 0 < length entry.1)

insert-IsFull :
    (term : ℕ) (servers : List ℕ) (leaders : Dict ℕ (List ℕ))
    → 0 < length servers
    → IsFull leaders
    → IsFull (insert term servers leaders)
unfolding insert
insert-IsFull term servers [] pos full = (pos, tt)
insert-IsFull term servers ((other, old) ∷ rest) pos full = elim (Bool-cases (other == term)) [
  | inl same ↦ rw same (pos, full.1)
  | inr differs ↦ rw differs (full.0, insert-IsFull term servers rest pos full.1)
]

pub collect-IsFull :
    (i : ℕ) (vs : List View) (leaders : Dict ℕ (List ℕ))
    → IsFull leaders
    → IsFull (collect i vs leaders)
unfolding collect
collect-IsFull i [] leaders full = full
collect-IsFull i (v ∷ vs) leaders full = collect-IsFull (suc i) vs (put_leader i v leaders) (
    if_elim IsFull (v.connected && v.leader)
      (insert-IsFull v.term (listed (lookup v.term leaders) ++ i ∷ []) leaders
        (omega (arith, length-append (listed (lookup v.term leaders)) (i ∷ []))) full)
      full)

pub collect-IsKeyed :
    (i : ℕ) (vs : List View) (leaders : Dict ℕ (List ℕ))
    → IsKeyed leaders
    → IsKeyed (collect i vs leaders)
unfolding collect
collect-IsKeyed i [] leaders keyed = keyed
collect-IsKeyed i (v ∷ vs) leaders keyed = collect-IsKeyed (suc i) vs (put_leader i v leaders) (
    if_elim IsKeyed (v.connected && v.leader)
      (insert-IsKeyed v.term (listed (lookup v.term leaders) ++ i ∷ []) leaders keyed) keyed)
