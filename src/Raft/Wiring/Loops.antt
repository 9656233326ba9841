-- ===== src/Raft/Wiring/Loops.antt =====
-- raft/config.go: what one loop of `connect` or `disconnect` does to an end.
use dist_kv_raft.Common.{
  ℕ, zero, suc, ◌+◌, ◌<◌, ◌==◌, nat_eq, string_eq, beq_refl, if◌then◌else◌, Bool, true, false, ◌||◌,
  List, [], ◌∷◌, String, lookup, lookup-insert, length, ◌≡◌, refl, sym, ap, ◌∙◌, subst, arith,
}
use dist_kv_raft.Labrpc.Network.{Network, enable, flag}
use dist_kv_raft.Raft.Wiring.{enable_connected, disable_all}

abbrev pub is_on : String → Network → Bool
is_on endname rn = flag (lookup endname rn.enabled)

abbrev pub is_up : ℕ → List Bool → Bool
is_up i [] = false
is_up zero (c ∷ cs) = c
is_up (suc i) (c ∷ cs) = is_up i cs

pub on_enabled :
    (x y : String) (b : Bool) (rn : Network)
    → is_on x (enable y b rn) ≡ (if y == x then b else is_on x rn)
unfolding enable
on_enabled x y b rn = ground (arith, lookup-insert y x b rn.enabled)

on_other :
    (x y : String) (b : Bool) (rn : Network) → ¬ (y ≡ x) → is_on x (enable y b rn) ≡ is_on x rn
on_other x y b rn h = on_enabled x y b rn ∙ ground (arith, h, string_eq.equal_iff y x)

on_same : (x : String) (b : Bool) (rn : Network) → is_on x (enable x b rn) ≡ b
on_same x b rn = on_enabled x x b rn ∙ ap (λ t. if t then b else is_on x rn) (beq_refl x)

stepped_same :
    (x : String) (c : Bool) (rn : Network)
    → is_on x (if c then enable x true rn else rn) ≡ (is_on x rn || c)
stepped_same x true rn = on_same x true rn ∙ ground arith
stepped_same x false rn = ground arith

stepped_other :
    (x y : String) (c : Bool) (rn : Network)
    → ¬ (y ≡ x)
    → is_on x (if c then enable y true rn else rn) ≡ is_on x rn
stepped_other x y true rn h = on_other x y true rn h
stepped_other x y false rn h = refl

-- None of the names from number `j` on is `x`.
abbrev IsUnnamed : (ℕ → String) → String → ℕ → Type 0
IsUnnamed name x j = (k : ℕ) → ¬ (name (j + k) ≡ x)

not_named_here : (name : ℕ → String) (x : String) (j : ℕ) → IsUnnamed name x j → ¬ (name j ≡ x)
not_named_here name x j h = subst (λ m. ¬ (name m ≡ x)) (omega arith) (h 0)

not_named_later :
    (name : ℕ → String) (x : String) (j : ℕ) → IsUnnamed name x j → IsUnnamed name x (suc j)
not_named_later name x j h k = subst (λ m. ¬ (name m ≡ x)) (omega arith) (h (suc k))

-- A loop leaves the ends alone that it does not name.
pub enable_connected_other :
    (name : ℕ → String) (x : String) (j : ℕ) (cs : List Bool) (rn : Network)
    → IsUnnamed name x j
    → is_on x (enable_connected name j cs rn) ≡ is_on x rn
unfolding enable_connected
enable_connected_other name x j [] rn h = refl
enable_connected_other name x j (c ∷ cs) rn h =
    enable_connected_other name x (suc j) cs (if c then enable (name j) true rn else rn)
      (not_named_later name x j h)
    ∙ stepped_other x (name j) c rn (not_named_here name x j h)

pub disable_all_other :
    (name : ℕ → String) (x : String) (j : ℕ) (cs : List Bool) (rn : Network)
    → IsUnnamed name x j
    → is_on x (disable_all name j cs rn) ≡ is_on x rn
unfolding disable_all
disable_all_other name x j [] rn h = refl
disable_all_other name x j (c ∷ cs) rn h =
    disable_all_other name x (suc j) cs (enable (name j) false rn) (not_named_later name x j h)
    ∙ on_other x (name j) false rn (not_named_here name x j h)

abbrev pub AreDistinct : (ℕ → String) → Type 0
AreDistinct name = (i j : ℕ) → name i ≡ name j → i ≡ j

distinct_later : (name : ℕ → String) (j : ℕ) → AreDistinct name → IsUnnamed name (name j) (suc j)
distinct_later name j d k e = absurd (omega (arith, d (suc j + k) j e))

distinct_end : (name : ℕ → String) (j k : ℕ) → AreDistinct name → ¬ (name j ≡ name (suc j + k))
distinct_end name j k d e = absurd (omega (arith, d j (suc j + k) e))

pub enable_connected_named :
    (name : ℕ → String) (j k : ℕ) (cs : List Bool) (rn : Network)
    → AreDistinct name
    → is_on (name (j + k)) (enable_connected name j cs rn) ≡ (is_on (name (j + k)) rn || is_up k cs)
unfolding enable_connected
enable_connected_named name j k [] rn d = ground arith
enable_connected_named name j zero (c ∷ cs) rn d =
    let here : j + 0 ≡ j = omega arith in
    subst (λ m. is_on (name m) (enable_connected name j (c ∷ cs) rn) ≡ (is_on (name m) rn || c))
      (sym here)
      (enable_connected_other name (name j) (suc j) cs (if c then enable (name j) true rn else rn)
          (distinct_later name j d)
        ∙ stepped_same (name j) c rn)
enable_connected_named name j (suc k) (c ∷ cs) rn d =
    let next : suc j + k ≡ j + suc k = omega arith in
    subst
      (λ m.
        is_on (name m) (enable_connected name j (c ∷ cs) rn) ≡ (is_on (name m) rn || is_up k cs))
      next
      (enable_connected_named name (suc j) k cs (if c then enable (name j) true rn else rn) d
        ∙ ap (λ b. b || is_up k cs)
            (stepped_other (name (suc j + k)) (name j) c rn (distinct_end name j k d)))

pub disable_all_named :
    (name : ℕ → String) (j k : ℕ) (cs : List Bool) (rn : Network)
    → AreDistinct name
    → k < length cs
    → is_on (name (j + k)) (disable_all name j cs rn) ≡ false
unfolding disable_all
disable_all_named name j k [] rn d lt = absurd (omega arith)
disable_all_named name j zero (c ∷ cs) rn d lt =
    let here : j + 0 ≡ j = omega arith in
    subst (λ m. is_on (name m) (disable_all name j (c ∷ cs) rn) ≡ false) (sym here)
      (disable_all_other name (name j) (suc j) cs (enable (name j) false rn)
          (distinct_later name j d)
        ∙ on_same (name j) false rn)
disable_all_named name j (suc k) (c ∷ cs) rn d lt =
    let next : suc j + k ≡ j + suc k = omega arith in
    subst (λ m. is_on (name m) (disable_all name j (c ∷ cs) rn) ≡ false) next
      (disable_all_named name (suc j) k cs (enable (name j) false rn) d (omega arith))
