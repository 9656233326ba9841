-- ===== src/Common/Maps.antt =====
-- A Go map as an association list. No modelled code depends on the order of iteration.
use mathlib.Core.Path.{◌≡◌, refl}
use mathlib.Core.Option.{Option, none, some}
use mathlib.Core.List.{List, [], ◌∷◌}
use native.Mathlib.Omega.{arith}
use dist_kv_raft.Common.Tests.{Eq, ◌==◌, if◌then◌else◌}

abbrev pub Dict {ℓ κ} : Type ℓ → Type κ → Type (ℓ ⊔ κ)
Dict K V = List (K × V)

module _ {ℓ κ} {K : Type ℓ} {V : Type κ} ⦃e : Eq K⦄ where
  -- `v, ok := m[k]`
  unfoldable pub lookup : K → Dict K V → Option V
  lookup key [] = none
  lookup key ((other, value) ∷ rest) =
      let further = lookup key rest in if other == key then some value else further

  -- `m[k] = v`
  unfoldable pub insert : K → V → Dict K V → Dict K V
  insert key value [] = (key, value) ∷ []
  insert key value ((other, old) ∷ rest) =
      let further = insert key value rest in
      if other == key then (key, value) ∷ rest else (other, old) ∷ further

  -- `delete(m, k)`
  unfoldable pub remove : K → Dict K V → Dict K V
  remove k [] = []
  remove k ((j, w) ∷ m) = let rest = remove k m in if j == k then rest else (j, w) ∷ rest

  pub lookup-insert :
      (written read : K) (value : V) (dict : Dict K V)
      → lookup read (insert written value dict)
        ≡ (if written == read then some value else lookup read dict)
  unfolding insert lookup
  lookup-insert written read value [] = refl
  lookup-insert written read value ((other, old) ∷ rest) = ground (
    arith,
    lookup-insert written read value rest,
    e.equal_iff other written,
    e.equal_iff other read,
    e.equal_iff written read,
  )

  pub lookup-remove :
      (k j : K) (m : Dict K V) → lookup j (remove k m) ≡ (if k == j then none else lookup j m)
  unfolding lookup remove
  lookup-remove k j [] = ground arith
  lookup-remove k j ((i, w) ∷ m) =
      ground (arith, e.equal_iff k j, e.equal_iff i k, e.equal_iff i j, lookup-remove k j m)

pub ruleset dict_laws = (lookup-insert, lookup-remove)
